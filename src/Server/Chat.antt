-- ===== src/Server/Chat.antt =====
-- internal/api/server.go: `chatCompletions` from the policy on.
pub mod Audit
pub mod Asked
use outcome_router.Base.{
  ℕ, ◌*◌, ◌^◌, String, Bool, true, false, not, ◌&&◌, ◌||◌, Option, none, some, List, [], ◌∷◌, ◌++◌,
  Map, lookup, insert, get_or, is_empty, if◌then◌else◌, ◌==◌, ◌⊎◌, inl, inr, is_some, codes, nat_eq,
}
use outcome_router.Base.Int.{ℤ, pos, ltb_ℤ, eq_ℤ}
use outcome_router.Config.{Tenant, Config}
use outcome_router.Double.{Double}
use outcome_router.Domain.{Time, Model, Policy, RouteDecision}
use outcome_router.Provider.{Client, available}
use outcome_router.Provider.Calls.{
  Http, Response, UpstreamError, get_header, copy_headers, read_limited,
}
use outcome_router.Routing.Feasible.{Request, Engine}
use outcome_router.Routing.Body.{Encoder}
use outcome_router.Routing.Predict.{actual_cost}
use outcome_router.Routing.Route.{Ambient, route, policy_models}
use outcome_router.Server.Attempts.{
  Moment, AttemptError, Setting, Attempts, attempt_all, no_attempts, build_attempt_order,
}
use outcome_router.Server.Outside.{
  Repository, HttpReply, bytes, write_error, panic_reply, upstream_of, upstream_status, safe_error,
  Usage, parse_usage, decision_headers, reply_with,
}
use outcome_router.Server.Shadows.{ShadowJob, launch_shadows}
use outcome_router.Server.Settle.{ChatSetting, attempts_of, answered_decision, settle}

-- What a request changes.
pub record World (F S : Type 0) : Type 0 where
  pub client : Client
  pub store : S
  pub shadow_spend : Map F
  pub launched : List (ShadowJob F)

abbrev pub audit_unavailable : HttpReply
audit_unavailable = write_error (pos 500) "audit_unavailable" "unable to persist routing decision"

module _ {F : Type 0} where
  -- The engine as cmd/router makes it: it asks the circuit breaker of the server's client. All
  -- questions of one call of `Route` are asked at the time when it starts.
  abbrev pub asking : ChatSetting F → Client → Engine F
  asking s client = record s.engine {
    health = some (λ provider_id. (available client s.ambient.started provider_id).0);
  }

  -- The question about one model that is visited: a disabled model is refused before it.
  abbrev pub ask_one : Time → Option (Model F) → Client → Client
  ask_one now none client = client
  ask_one now (some model) client =
      if model.enabled then (available client now model.provider).1 else client

  -- What the questions of the loop over the models leave of the client.
  unfoldable pub ask_all : Map (Model F) → Time → List String → Client → Client
  ask_all catalog now [] client = client
  ask_all catalog now (model_id ∷ ids) client =
      ask_all catalog now ids (ask_one now (lookup model_id catalog) client)

  abbrev pub routed : {S : Type 0} → ChatSetting F → Policy F → World F S → World F S
  routed s policy w = record w {
    client = ask_all s.engine.catalog s.ambient.started (policy_models policy) w.client;
  }

module _ {F : Type 0} ⦃d : Double F⦄ where
  -- The shadows are launched when a model has answered.
  abbrev launch_after :
      ChatSetting F
      → Tenant
      → Policy F
      → RouteDecision F
      → Attempts F
      → Option (Model F × Response)
      → Map F
      → List (ShadowJob F) × Map F
  launch_after s tenant policy decision st none spend = ([], spend)
  launch_after s tenant policy decision st (some (model, response)) spend =
      launch_shadows s.catalog tenant policy (answered_decision s decision st model response) s.day
        spend

  -- After the first save: the calls, the shadows and the second save, whose error is only logged.
  unfoldable pub complete :
      {S : Type 0}
      → Repository F S
      → ChatSetting F
      → Tenant
      → Policy F
      → Request F
      → Map String
      → RouteDecision F
      → World F S
      → HttpReply × World F S
  complete repository s tenant policy request headers decision w =
      let st = attempts_of s tenant policy request headers decision w.client in
      let (final, reply) = settle s request decision st st.response in
      let (jobs, spend) = launch_after s tenant policy decision st st.response w.shadow_spend in
      (
        reply,
        record {
          client = st.client;
          store = (repository.save_decision final w.store).1;
          shadow_spend = spend;
          launched = w.launched ++ jobs;
        },
      )

  abbrev after_save :
      {S : Type 0}
      → Repository F S
      → ChatSetting F
      → Tenant
      → Policy F
      → Request F
      → Map String
      → RouteDecision F
      → World F S
      → Option String × S
      → HttpReply × World F S
  after_save repository s tenant policy request headers decision w (some e, store) =
      (audit_unavailable, record w { store = store })
  after_save repository s tenant policy request headers decision w (none, store) =
      complete repository s tenant policy request headers decision (record w { store = store })

  abbrev pub with_decision :
      {S : Type 0}
      → Repository F S
      → ChatSetting F
      → Tenant
      → Policy F
      → Request F
      → Map String
      → World F S
      → Option (RouteDecision F)
      → HttpReply × World F S
  with_decision repository s tenant policy request headers w none = (panic_reply, w)
  with_decision repository s tenant policy request headers w (some decision) =
      after_save repository s tenant policy request headers decision w
        (repository.save_decision decision w.store)

  -- From the policy on. A panic of `Route` is recovered as an internal error.
  unfoldable pub serve :
      {S : Type 0}
      → Repository F S
      → ChatSetting F
      → Tenant
      → Policy F
      → Request F
      → Map String
      → World F S
      → HttpReply × World F S
  serve repository s tenant policy request headers w =
      with_decision repository s tenant policy request headers (routed s policy w)
        (route s.ambient (asking s w.client) tenant.id policy request)
