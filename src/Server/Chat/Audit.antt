-- ===== src/Server/Chat/Audit.antt =====
-- The audit trail of one request: what is saved before and after the calls.
use mathlib.Core.Option.{some-ne-none}
use outcome_router.Base.{
  lookup, is_empty, ℕ, ◌*◌, ◌^◌, String, ◌≡◌, refl, ◌∙◌, sym, ap, subst, ◌⊎◌, inl, inr, ◌||◌,
  Option, none, some, List, [], ◌∷◌, ◌++◌, Map, Bool-cases,
}
use outcome_router.Base.Int.{pos, ◌≤ℤ◌, ◌<ℤ◌}
use outcome_router.Config.{Tenant}
use outcome_router.Double.{Double}
use outcome_router.Domain.{Policy, RouteDecision, Model}
use outcome_router.Provider.Calls.{Response, read_limited}
use outcome_router.Routing.Feasible.{Request}
use outcome_router.Routing.Route.{route, policy_models}
use outcome_router.Provider.{Client}
use outcome_router.Provider.Breaker.{is_available}
use outcome_router.Server.Attempts.{AttemptError, Attempts, build_attempt_order, no_attempts}
use outcome_router.Server.Attempts.Allowed.{IsCallable, IsTried, IsRun, IsAnswer, attempt_all-IsRun}
use outcome_router.Server.Outside.{Repository, HttpReply, upstream_of}
use outcome_router.Server.Settle.{
  failed_decision, upstream_failure, upstream_body, ChatSetting, setting_of, attempts_of, settle,
  is_event_stream, whole_decision, answered_decision,
}
use outcome_router.Server.Chat.{World, asking, routed, complete, audit_unavailable, serve}
use outcome_router.Server.Chat.Asked.{IsAsked, ask_all-IsAsked, ask_all-is_available}

module _ {F : Type 0} ⦃d : Double F⦄ (s : ChatSetting F) (tenant : Tenant) (policy : Policy F)
    (request : Request F) (headers : Map String) where
  -- What the second record keeps of the first.
  abbrev pub IsSameDecision : RouteDecision F → RouteDecision F → Type 0
  IsSameDecision before after =
      (after.id ≡ before.id)
      × (after.tenant_id ≡ before.tenant_id)
      × (after.trace_id ≡ before.trace_id)
      × (after.policy_version ≡ before.policy_version)
      × (after.selected_model ≡ before.selected_model)
      × (after.bucket ≡ before.bucket)
      × (after.predictions ≡ before.predictions)
      × (after.completed_at ≡ some s.completed)

  -- The models that the second record names, and the answer.
  pub record IsOutcome (before after : RouteDecision F) (reply : HttpReply) : Type 0 where
    pub are_tried :
        IsTried
          (setting_of s tenant request headers before)
          after.attempted_models
          (build_attempt_order before.selected_model policy.fallback_models policy.incumbent_model)
    pub ends :
        ((after.final_model ≡ before.final_model) × (reply.status ≡ pos 502))
        ⊎ ((earlier : List String) × (last : String) × (model : Model F) × (after.attempted_models
              ≡ earlier ++ last ∷ [])
            × IsCallable (setting_of s tenant request headers before) last model
            × (after.final_model ≡ model.id)
            × (pos 200 ≤ℤ after.upstream_status)
            × (after.upstream_status <ℤ pos 300))

  -- A record of a model's answer.
  abbrev IsAnswered : RouteDecision F → Attempts F → Model F → Response → RouteDecision F → Type 0
  IsAnswered before st model response after =
      (after.attempted_models ≡ st.attempted)
      × (after.final_model ≡ model.id)
      × (after.upstream_status ≡ response.status_code)
      × IsSameDecision before after

  whole-IsAnswered :
      (before : RouteDecision F) (st : Attempts F) (model : Model F) (response : Response)
      (read : List ℕ × Option String)
      → IsAnswered before st model response
          (whole_decision s (answered_decision s before st model response) model read)
  whole-IsAnswered before st model response (body, none) =
      (refl, refl, refl, (refl, refl, refl, refl, refl, refl, refl, refl))
  whole-IsAnswered before st model response (body, some e) =
      (refl, refl, refl, (refl, refl, refl, refl, refl, refl, refl, refl))

  settle-IsAnswered :
      (before : RouteDecision F) (st : Attempts F) (model : Model F) (response : Response)
      → IsAnswered before st model response (settle s request before st (some (model, response))).0
  unfolding settle
  settle-IsAnswered before st model response =
      elim (Bool-cases (request.stream || is_event_stream s.http response)) [
        | inl streamed ↦
            rw (streamed) (refl, refl, refl, (refl, refl, refl, refl, refl, refl, refl, refl))
        | inr whole ↦
            rw (whole)
              (whole-IsAnswered before st model response (read_limited (64 * 2 ^ 20) response))
      ]

  -- Every decision that is settled is the first one, with what the calls added.
  pub record IsAudited (before after : RouteDecision F) (reply : HttpReply) : Type 0 where
    pub same : IsSameDecision before after
    pub outcome : IsOutcome before after reply

  abbrev IsChatRun : RouteDecision F → Client → Attempts F → Type 0
  IsChatRun before client st =
      IsRun (setting_of s tenant request headers before)
        (build_attempt_order before.selected_model policy.fallback_models policy.incumbent_model)
        (no_attempts client) st

  answered-IsAudited :
      (before after : RouteDecision F) (client : Client) (st : Attempts F) (model : Model F)
      (response : Response) (reply : HttpReply)
      → st.response ≡ some (model, response)
      → IsAnswered before st model response after
      → IsChatRun before client st
      → IsAudited before after reply
  answered-IsAudited before after client st model response reply e (tried, final, status, same)
        run =
      elim run.ends [
        | inl none_yet ↦ absurd (some-ne-none _ (sym e ∙ none_yet))
        | inr (earlier, last, m, split, callable, answer) ↦
            let (is, low, high) =
              subst (IsAnswer (setting_of s tenant request headers before) m) e answer in
            record {
              same = same;
              outcome = record {
                are_tried =
                    subst
                      (λ ids. IsTried (setting_of s tenant request headers before) ids (
                        build_attempt_order before.selected_model policy.fallback_models
                          policy.incumbent_model))
                      (sym (tried ∙ run.extends)) run.tried;
                ends = inr (
                  earlier,
                  last,
                  m,
                  tried ∙ run.extends ∙ split,
                  callable,
                  final ∙ ap (λ (x : Model F). x.id) is,
                  rw (status) low,
                  rw (status) high,
                );
              };
            }
      ]

  failure-status :
      (last_error : Option AttemptError) (decision : RouteDecision F)
      → (upstream_failure last_error decision).status ≡ pos 502
  failure-status last_error decision =
      elim (Bool-cases (is_empty (upstream_body (upstream_of last_error)))) [
        | inl empty ↦ rw (empty) refl
        | inr full ↦ rw (full) refl
      ]

  settle-none-same :
      (before : RouteDecision F) (st : Attempts F)
      → IsSameDecision before (settle s request before st none).0
  unfolding settle
  settle-none-same before st = (refl, refl, refl, refl, refl, refl, refl, refl)

  settle-none-tried :
      (before : RouteDecision F) (st : Attempts F)
      → (settle s request before st none).0.attempted_models ≡ st.attempted
  unfolding settle
  settle-none-tried before st = refl

  settle-none-final :
      (before : RouteDecision F) (st : Attempts F)
      → ((settle s request before st none).0.final_model ≡ before.final_model)
        × ((settle s request before st none).1.status ≡ pos 502)
  unfolding settle
  settle-none-final before st = (refl, failure-status st.last_error (failed_decision s before st))

  settle-IsAudited :
      (before : RouteDecision F) (client : Client) (st : Attempts F)
      (response : Option (Model F × Response))
      → st.response ≡ response
      → IsChatRun before client st
      → IsAudited before
          (settle s request before st response).0
          (settle s request before st response).1
  settle-IsAudited before client st (some (model, response)) e run =
      answered-IsAudited before (settle s request before st (some (model, response))).0 client st
        model response (settle s request before st (some (model, response))).1 e
        (settle-IsAnswered before st model response) run
  settle-IsAudited before client st none e run = record {
    same = settle-none-same before st;
    outcome = record {
      are_tried =
          subst
            (λ ids. IsTried (setting_of s tenant request headers before) ids (
              build_attempt_order before.selected_model policy.fallback_models
                policy.incumbent_model))
            (sym (settle-none-tried before st ∙ run.extends)) run.tried;
      ends = inl (settle-none-final before st);
    };
  }

  complete-IsAudited :
      {S : Type 0} (repository : Repository F S) (decision : RouteDecision F) (w : World F S)
      → (final : RouteDecision F) × ((complete repository s tenant policy request headers decision
            w).1.store
          ≡ (repository.save_decision final w.store).1)
        × IsAudited decision final
            (complete repository s tenant policy request headers decision w).0
  unfolding complete attempts_of
  complete-IsAudited repository decision w =
      let order =
        build_attempt_order decision.selected_model policy.fallback_models policy.incumbent_model in
      let st = attempts_of s tenant policy request headers decision w.client in
      (
        (settle s request decision st st.response).0,
        refl,
        settle-IsAudited decision w.client st st.response refl (
            attempt_all-IsRun (setting_of s tenant request headers decision) order
              (no_attempts w.client) refl),
      )

  -- When `Route`, which asks the breaker of the server's client, has made a decision: if it cannot be
  -- saved, the answer is an error, whatever the network would answer, and nothing has changed but the
  -- store and, in the breaker, open periods that were over at the time of the questions and are closed,
  -- so that the breaker answers at that time as before; if it is saved, one more record is saved, which
  -- keeps the id, tenant, trace, policy version, selection, bucket and predictions, is completed, and
  -- lists the models that were called, all of them callable and in the order in which they are to be
  -- tried. Either the final model is as `Route` left it and the answer is 502, or it is the last one
  -- called, with a status from 200 to 299.
  pub serve_lem :
      {S : Type 0} (repository : Repository F S) (decision : RouteDecision F) (w : World F S)
      → route s.ambient (asking s w.client) tenant.id policy request ≡ some decision
      → ((e : String)
          → (repository.save_decision decision w.store).0 ≡ some e
          → (serve repository s tenant policy request headers w ≡ (
            audit_unavailable,
            record (routed s policy w) { store = (repository.save_decision decision w.store).1 },
          ))
            × ((id : String)
                → IsAsked s.ambient.started
                    (lookup id w.client.circuits)
                    (lookup id (routed s policy w).client.circuits))
            × ((id : String)
                → is_available (routed s policy w).client s.ambient.started id
                  ≡ is_available w.client s.ambient.started id))
        × ((repository.save_decision decision w.store).0 ≡ none
            → (final : RouteDecision F) × ((serve repository s tenant policy request headers
                  w).1.store
                ≡ (repository.save_decision final (repository.save_decision decision w.store).1).1)
              × IsAudited decision final (serve repository s tenant policy request headers w).0)
  unfolding serve
  serve_lem repository decision w h = (
    λ e failed. (
      rw (h, failed) refl,
      λ id. ask_all-IsAsked s.ambient.started id s.engine.catalog (policy_models policy) w.client,
      λ id.
          ask_all-is_available s.ambient.started id s.engine.catalog (policy_models policy)
            w.client,
    ),
    λ saved.
        rw (h, saved)
          (complete-IsAudited repository decision
            (record (routed s policy w) { store = (repository.save_decision decision w.store).1 })),
  )
