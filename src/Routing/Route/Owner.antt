-- ===== src/Routing/Route/Owner.antt =====
-- A decision belongs to the tenant that it is made for.
use mathlib.Core.Option.{some-injective}
use outcome_router.Base.{
  String, ◌≡◌, refl, sym, ap, Option, none, some, arith, Bool-cases, inl, inr, is_empty,
}
use outcome_router.Double.{Double}
use outcome_router.Domain.{Policy, Prediction, RouteDecision}
use outcome_router.Routing.Feasible.{Request, Engine}
use outcome_router.Routing.Route.{
  Ambient, select, optimize, allocate, predicted_decision, initial_decision, route,
}
use outcome_router.Routing.Route.Buckets.{route_candidates, shadowed_decision}

module _ {F : Type 0} ⦃d : Double F⦄ (a : Ambient F) (policy : Policy F) (request : Request F) where
  select-tenant :
      (before after : RouteDecision F) (choice : Option (String × Prediction F))
      → select a policy before choice ≡ some after
      → after.tenant_id ≡ before.tenant_id
  unfolding select
  select-tenant before after none h = cc
  select-tenant before after (some (bucket, p)) h =
      ap (λ (r : RouteDecision F). r.tenant_id) (sym (some-injective _ _ h))

  optimize-tenant :
      (before after : RouteDecision F)
      → optimize a policy request before ≡ some after
      → after.tenant_id ≡ before.tenant_id
  unfolding optimize
  optimize-tenant before after h = elim (Bool-cases (is_empty (route_candidates policy before))) [
    | inl empty ↦
        ap (λ (r : RouteDecision F). r.tenant_id)
          (sym (some-injective _ _ (rw (empty, optimize) at h)))
    | inr full ↦ select-tenant before after _ (rw (full, optimize) at h)
  ]

  allocate-tenant :
      (before after : RouteDecision F)
      → allocate a policy request before ≡ some after
      → after.tenant_id ≡ before.tenant_id
  unfolding allocate
  allocate-tenant before after h = ground (arith, optimize-tenant before after)

module _ {F : Type 0} ⦃d : Double F⦄ (a : Ambient F) (e : Engine F) (tenant_id : String)
    (policy : Policy F) (request : Request F) where
  starts_with-tenant : (predicted_decision a e tenant_id policy request).tenant_id ≡ tenant_id
  unfolding predicted_decision initial_decision
  starts_with-tenant = refl

  pub route-tenant :
      (decision : RouteDecision F)
      → route a e tenant_id policy request ≡ some decision
      → decision.tenant_id ≡ tenant_id
  unfolding route
  route-tenant decision h = ground (
    arith,
    allocate-tenant a policy request (shadowed_decision a e tenant_id policy request) decision,
    starts_with-tenant,
  )
