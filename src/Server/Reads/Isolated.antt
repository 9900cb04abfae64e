-- ===== src/Server/Reads/Isolated.antt =====
-- What a tenant reads of a request is what was recorded.
use outcome_router.Base.{String, ◌≡◌, refl, ap, ◌∙◌, none, some, Map, Option-cases, inl, inr, ◌⊎◌}
use outcome_router.Config.{Tenant, Config}
use outcome_router.Config.Access.{authenticate}
use outcome_router.Double.{Double}
use outcome_router.Domain.{Policy, RouteDecision}
use outcome_router.Routing.Feasible.{Request}
use outcome_router.Routing.Route.{route}
use outcome_router.Routing.Route.Owner.{route-tenant}
use outcome_router.Server.Chat.{World, asking, serve}
use outcome_router.Server.Chat.Audit.{IsAudited, serve_lem}
use outcome_router.Server.Outside.{Repository}
use outcome_router.Server.Reads.{found_decision, decision}
use outcome_router.Server.Settle.{ChatSetting}

-- What the handlers rely on in a repository.
pub record IsStore {F S : Type 0} (r : Repository F S) : Type 0 where
  -- A decision that is saved without an error is what its tenant finds under its id.
  pub get_saved :
      (store : S) (saved : RouteDecision F)
      → (r.save_decision saved store).0 ≡ none
      → r.get_decision (r.save_decision saved store).1 saved.tenant_id saved.id ≡ some saved
  -- A save with an error changes nothing that is found.
  pub get_unsaved :
      (store : S) (saved : RouteDecision F) (e tenant_id id : String)
      → (r.save_decision saved store).0 ≡ some e
      → r.get_decision (r.save_decision saved store).1 tenant_id id
        ≡ r.get_decision store tenant_id id

module _ {F S : Type 0} (repository : Repository F S) (law : IsStore repository) (config : Config F)
    (authorization : String) (tenant : Tenant) where
  decision-found :
      (store : S) (id : String) (found : RouteDecision F)
      → authenticate config authorization ≡ some tenant
      → repository.get_decision store tenant.id id ≡ some found
      → decision repository config authorization id store ≡ found_decision found
  unfolding decision
  decision-found store id found known there = rw (known, there) refl

  get_saved-at :
      (store : S) (saved : RouteDecision F) (id : String)
      → saved.tenant_id ≡ tenant.id
      → saved.id ≡ id
      → (repository.save_decision saved store).0 ≡ none
      → repository.get_decision (repository.save_decision saved store).1 tenant.id id ≡ some saved
  get_saved-at store saved id owner named done =
      rw (← owner, ← named) (law.get_saved store saved done)

  -- When `Route` has made a decision and its record is saved, the tenant reads, under the decision's id
  -- and after the answer, the audit record of the request if its save has no error, and else the
  -- record of before the calls.
  pub serve-decision :
      ⦃d : Double F⦄ (s : ChatSetting F) (policy : Policy F) (request : Request F)
      (headers : Map String) (first : RouteDecision F) (w : World F S)
      → authenticate config authorization ≡ some tenant
      → route s.ambient (asking s w.client) tenant.id policy request ≡ some first
      → (repository.save_decision first w.store).0 ≡ none
      → let (reply, after) = serve repository s tenant policy request headers w in
        (final : RouteDecision F) × IsAudited s tenant policy request headers first final reply
        × ((decision repository config authorization first.id after.store ≡ found_decision final)
            ⊎ ((e : String) × ((repository.save_decision final
                    (repository.save_decision first w.store).1).0
                  ≡ some e)
                × (decision repository config authorization first.id after.store
                    ≡ found_decision first)))
  serve-decision s policy request headers first w known routed saved =
      let (final, stored, audited) =
        (serve_lem s tenant policy request headers repository first w routed).1 saved in
      let mid = (repository.save_decision first w.store).1 in
      let owner : first.tenant_id ≡ tenant.id =
        route-tenant s.ambient (asking s w.client) tenant.id policy request first routed in
      (
        final,
        audited,
        elim (Option-cases (repository.save_decision final mid).0) [
          | inl done ↦ inl (
              decision-found _ first.id final known (
                ap (λ store. repository.get_decision store tenant.id first.id) stored
                ∙ get_saved-at mid final first.id (audited.same.1 ∙ owner) audited.same.0 done))
          | inr (e, failed) ↦ inr (
            e,
            failed,
            decision-found _ first.id first known (
                ap (λ store. repository.get_decision store tenant.id first.id) stored
                ∙ law.get_unsaved mid final e tenant.id first.id failed
                ∙ get_saved-at w.store first first.id owner refl saved),
          )
        ],
      )
