-- ===== src/Routing/Route/Buckets.antt =====
-- Which requests fall into the control group, the canary, the exploration and the treatment.
use mathlib.Core.Option.{some-injective}
use outcome_router.Base.{
  String, ◌≡◌, refl, sym, ap, ◌↔◌, ◌⊎◌, inl, inr, true, false, Option, none, some, List, [], ◌∷◌,
  arith, Bool-cases, ◌<>◌, is_empty, get_elem?, text_ne,
}
use outcome_router.Double.{Double, ◌⊕◌, ◌⊖◌, ltf, lef, zero_float}
use outcome_router.Domain.{
  Policy, Prediction, RouteDecision, is_observe, is_shadow, is_canary, is_low,
}
use outcome_router.Routing.Feasible.{Request, Engine}
use outcome_router.Routing.Hash.{hash_percent}
use outcome_router.Routing.Select.{prediction_of, candidates_from, sort_slice, cheaper, choose}
use outcome_router.Routing.Route.{
  Ambient, trace_id_of, initial_decision, select, optimize, allocate, shadow_candidates,
  predicted_decision, route,
}

module _ {F : Type 0} ⦃d : Double F⦄ where
  -- The candidates of the last part of `Route`.
  abbrev pub route_candidates : Policy F → RouteDecision F → List (Prediction F)
  route_candidates policy before =
      candidates_from policy
        ((prediction_of before.predictions policy.incumbent_model).success
          ⊖ policy.quality_tolerance)
        before.predictions policy.candidate_models

  -- The bucket that a choice gives, with the test that leads there.
  pub choose-bucket :
      (policy : Policy F) (request : Request F) (trace_id : String)
      (candidates : List (Prediction F)) (bucket : String) (p : Prediction F)
      → choose policy request trace_id candidates ≡ some (bucket, p)
      → ((bucket ≡ "treatment") × (get_elem? candidates 0 ≡ some p))
        ⊎ ((bucket ≡ "exploration")
            × (is_low request.metadata.risk_class ≡ true)
            × (ltf zero_float policy.exploration_percent ≡ true)
            × (ltf
                  (hash_percent (trace_id <> "|explore|" <> policy.version))
                  policy.exploration_percent
                ≡ true))
  unfolding choose
  choose-bucket policy request trace_id [] bucket p h = cc
  choose-bucket policy request trace_id (first ∷ rest) bucket p h = ground arith

module _ {F : Type 0} ⦃d : Double F⦄ (a : Ambient F) (policy : Policy F) (request : Request F) where
  -- The choice that a decision records.
  pub record IsPicked (before after : RouteDecision F) : Type 0 where
    pub bucket : String
    pub picked : Prediction F
    pub chosen :
        choose policy request before.trace_id (sort_slice cheaper (route_candidates policy before))
        ≡ some (bucket, picked)
    pub in_bucket : after.bucket ≡ bucket
    pub is_selected : after.selected_model ≡ picked.model_id
    pub at_cost : after.estimated_cost_usd ≡ picked.estimated_cost_usd

  select-IsPicked :
      (before after : RouteDecision F) (choice : Option (String × Prediction F))
      → choose policy request before.trace_id (sort_slice cheaper (route_candidates policy before))
        ≡ choice
      → select a policy before choice ≡ some after
      → IsPicked before after
  unfolding select
  select-IsPicked before after none e h = cc
  select-IsPicked before after (some (bucket, p)) e h =
      let same = some-injective _ _ h in
      record {
        bucket = bucket;
        picked = p;
        chosen = e;
        in_bucket = ap (λ (r : RouteDecision F). r.bucket) (sym same);
        is_selected = ap (λ (r : RouteDecision F). r.selected_model) (sym same);
        at_cost = ap (λ (r : RouteDecision F). r.estimated_cost_usd) (sym same);
      }

  optimize-IsPicked :
      (before after : RouteDecision F)
      → optimize a policy request before ≡ some after
      → (after.bucket ≡ before.bucket) ⊎ IsPicked before after
  unfolding optimize
  optimize-IsPicked before after h = elim (Bool-cases (is_empty (route_candidates policy before))) [
    | inl empty ↦ inl (
        ap (λ (r : RouteDecision F). r.bucket)
          (sym (some-injective _ _ (rw (empty, optimize) at h))))
    | inr full ↦ inr (select-IsPicked before after _ refl (rw (full, optimize) at h))
  ]

  -- Where the gate of the control group and the canary let the request through.
  abbrev pub IsAdmitted : RouteDecision F → Type 0
  IsAdmitted before =
      let hash = hash_percent (before.trace_id <> "|" <> policy.version) in
      (ltf hash policy.control_percent ≡ false)
      × ((is_canary policy.mode ≡ false)
          ⊎ (lef (policy.control_percent ⊕ policy.canary_percent) hash ≡ false))

  abbrev pub IsControl : RouteDecision F → RouteDecision F → Type 0
  IsControl before after =
      (after.bucket ≡ "control")
      × (after.fallback_reason ≡ "randomized_control")
      × (after.selected_model ≡ before.selected_model)
      × (ltf (hash_percent (before.trace_id <> "|" <> policy.version)) policy.control_percent
          ≡ true)

  allocate-cases :
      (before after : RouteDecision F)
      → allocate a policy request before ≡ some after
      → (after.bucket ≡ before.bucket)
        ⊎ IsControl before after
        ⊎ (IsAdmitted before × IsPicked before after)
  unfolding allocate
  allocate-cases before after h = ground (arith, optimize-IsPicked before after)

module _ {F : Type 0} ⦃d : Double F⦄ (a : Ambient F) (e : Engine F) (tenant_id : String)
    (policy : Policy F) (request : Request F) where
  -- The decision that enters the allocation, with its shadow models.
  abbrev pub shadowed_decision : RouteDecision F
  shadowed_decision =
      let before = predicted_decision a e tenant_id policy request in
      record before { shadow_models = shadow_candidates policy before.predictions }

  -- The policy routes live traffic.
  abbrev pub IsLive : Type 0
  IsLive =
      (policy.drifted ≡ false) × (is_observe policy.mode ≡ false) × (is_shadow policy.mode ≡ false)

  abbrev pub control_hash : F
  control_hash = hash_percent (trace_id_of a request <> "|" <> policy.version)

  pub starts_incumbent : (predicted_decision a e tenant_id policy request).bucket ≡ "incumbent"
  unfolding predicted_decision initial_decision
  starts_incumbent = refl

  pub keeps_trace :
      (predicted_decision a e tenant_id policy request).trace_id ≡ trace_id_of a request
  unfolding predicted_decision initial_decision
  keeps_trace = refl

  starts_with_incumbent :
      (predicted_decision a e tenant_id policy request).selected_model ≡ policy.incumbent_model
  unfolding predicted_decision initial_decision
  starts_with_incumbent = refl

  pub route-cases :
      (decision : RouteDecision F)
      → route a e tenant_id policy request ≡ some decision
      → (decision.bucket ≡ "incumbent")
        ⊎ (IsLive × IsControl a policy request shadowed_decision decision)
        ⊎ (IsLive
            × IsAdmitted a policy request shadowed_decision
            × IsPicked a policy request shadowed_decision decision)
  unfolding route
  route-cases decision h =
      ground (arith, allocate-cases a policy request shadowed_decision decision, starts_incumbent)

  picked-bucket :
      (decision : RouteDecision F)
      → IsPicked a policy request shadowed_decision decision
      → (decision.bucket ≡ "treatment") ⊎ (decision.bucket ≡ "exploration")
  picked-bucket decision k = ground (
    arith,
    choose-bucket policy request shadowed_decision.trace_id
        (sort_slice cheaper (route_candidates policy shadowed_decision)) k.bucket k.picked k.chosen,
  )

  control-of_hash :
      (decision : RouteDecision F)
      → route a e tenant_id policy request ≡ some decision
      → IsLive
      → ltf control_hash policy.control_percent ≡ true
      → decision.bucket ≡ "control"
  unfolding route allocate
  control-of_hash decision h live low = ground (arith, keeps_trace)

  -- If `Route` returns a decision: it is in the control group exactly when the policy is live
  -- and the hash of the trace and the policy's version is below the control percentage, and
  -- then the incumbent serves it.
  pub route_control_iff :
      (decision : RouteDecision F)
      → route a e tenant_id policy request ≡ some decision
      → ((decision.bucket ≡ "control")
          ↔ (IsLive × (ltf control_hash policy.control_percent ≡ true)))
        × (decision.bucket ≡ "control" → decision.selected_model ≡ policy.incumbent_model)
  route_control_iff decision h = (
    (
      λ c. ground (
        arith,
        route-cases decision h,
        picked-bucket decision,
        keeps_trace,
        text_ne "incumbent" "control" refl,
        text_ne "treatment" "control" refl,
        text_ne "exploration" "control" refl,
      ),
      λ (live, low). control-of_hash decision h live low,
    ),
    λ c. ground (
      arith,
      route-cases decision h,
      picked-bucket decision,
      starts_with_incumbent,
      text_ne "incumbent" "control" refl,
      text_ne "treatment" "control" refl,
      text_ne "exploration" "control" refl,
    ),
  )
