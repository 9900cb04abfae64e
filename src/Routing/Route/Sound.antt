-- ===== src/Routing/Route/Sound.antt =====
-- What a model needs to be selected in the incumbent's place.
use mathlib.Core.Option.{some-injective}
use outcome_router.Base.{
  String, ◌≡◌, refl, sym, ◌∙◌, ap, ◌⊎◌, inl, inr, true, false, Option, none, some, arith,
  Bool-cases, lookup, ◌==◌, In, is_empty,
}
use outcome_router.Base.Int.{◌≤ℤ◌}
use outcome_router.Double.{Double, ◌⊕◌, ◌⊖◌, ltf}
use outcome_router.Domain.{Model, Policy, Prediction, RouteDecision, is_observe, is_shadow}
use outcome_router.Routing.Feasible.{Request, Engine}
use outcome_router.Routing.Feasible.Exact.{IsFeasible, infeasible_reason-IsFeasible}
use outcome_router.Routing.Predict.{predict, estimate_cost}
use outcome_router.Routing.Select.{
  prediction_of, epsilon, qualifies, candidates_from, sort_slice, cheaper, choose,
}
use outcome_router.Routing.Select.Members.{
  IsCandidate, candidates_from-IsCandidate, In-sort_slice, choose-In,
}
use outcome_router.Routing.Route.{
  Ambient, select, optimize, allocate, predicted_decision, initial_decision, shadow_candidates,
  route,
}
use outcome_router.Routing.Route.Unique.{incumbent-In}
use outcome_router.Routing.Route.Predictions.{
  predicted_decision-covers, predictions-IsSourced, eligible-sourced,
}

module _ {F : Type 0} ⦃d : Double F⦄ (a : Ambient F) (policy : Policy F) (request : Request F) where
  -- The selected model is the incumbent, or the prediction of a candidate that passed both tests.
  abbrev Chosen : RouteDecision F → RouteDecision F → Type 0
  Chosen before after =
      (after.selected_model ≡ policy.incumbent_model)
      ⊎ ((p : Prediction F) × (after.selected_model ≡ p.model_id)
          × IsCandidate policy
              ((prediction_of before.predictions policy.incumbent_model).success
                ⊖ policy.quality_tolerance)
              before.predictions policy.candidate_models p)

  select-model :
      (before after : RouteDecision F) (bucket : String) (p : Prediction F)
      → select a policy before (some (bucket, p)) ≡ some after
      → after.selected_model ≡ p.model_id
  unfolding select
  select-model before after bucket p h =
      ap (λ (r : RouteDecision F). r.selected_model) (sym (some-injective _ _ h))

  -- A choice among the candidates.
  choice-Chosen :
      (before after : RouteDecision F) (picked : Option (String × Prediction F))
      → ((bucket : String) (p : Prediction F)
          → picked ≡ some (bucket, p)
          → IsCandidate policy
              ((prediction_of before.predictions policy.incumbent_model).success
                ⊖ policy.quality_tolerance)
              before.predictions
              policy.candidate_models
              p)
      → select a policy before picked ≡ some after
      → Chosen before after
  unfolding select
  choice-Chosen before after none from h = cc
  choice-Chosen before after (some (bucket, p)) from h =
      inr (p, select-model before after bucket p h, from bucket p refl)

  optimize-Chosen :
      (before after : RouteDecision F)
      → before.selected_model ≡ policy.incumbent_model
      → optimize a policy request before ≡ some after
      → Chosen before after
  unfolding optimize
  optimize-Chosen before after i h =
      let floor =
        (prediction_of before.predictions policy.incumbent_model).success
        ⊖ policy.quality_tolerance in
      let candidates = candidates_from policy floor before.predictions policy.candidate_models in
      elim (Bool-cases (is_empty candidates)) [
        | inl empty ↦ inl (
            ap (λ (r : RouteDecision F). r.selected_model)
              (sym (some-injective _ _ (rw (empty, optimize) at h)))
            ∙ i)
        | inr full ↦
            choice-Chosen before after
              (choose policy request before.trace_id (sort_slice cheaper candidates))
              (λ bucket p ok.
                candidates_from-IsCandidate policy floor before.predictions policy.candidate_models
                  p
                  (In-sort_slice cheaper candidates p (
                    choose-In policy request before.trace_id (sort_slice cheaper candidates) bucket
                      p ok)))
              (rw (full, optimize) at h)
      ]

  allocate-Chosen :
      (before after : RouteDecision F)
      → before.selected_model ≡ policy.incumbent_model
      → allocate a policy request before ≡ some after
      → Chosen before after
  unfolding allocate
  allocate-Chosen before after i h = ground (arith, optimize-Chosen before after i)

module _ {F : Type 0} ⦃d : Double F⦄ (a : Ambient F) (e : Engine F) where
  -- The conditions on a model that takes the place of the incumbent, whose estimate is `success`.
  pub record IsRouted (policy : Policy F) (request : Request F) (success : F)
      (decision : RouteDecision F) : Type 0 where
    pub model_id : String
    pub model : Model F
    pub is_candidate : In model_id policy.candidate_models
    pub in_catalog : lookup model_id e.catalog ≡ some model
    pub is_selected : decision.selected_model ≡ model.id
    pub feasible : IsFeasible a.fold e policy model request (estimate_cost model request.features)
    pub sampled : policy.minimum_samples ≤ℤ (predict a.fold a.visit e policy model request).samples
    pub above_floor :
        ltf
          ((predict a.fold a.visit e policy model request).lower_bound ⊕ epsilon)
          (success ⊖ policy.quality_tolerance)
        ≡ false
    pub not_drifted : policy.drifted ≡ false
    pub not_observing : is_observe policy.mode ≡ false
    pub not_shadowing : is_shadow policy.mode ≡ false

  qualifies-parts :
      (policy : Policy F) (floor : F) (p : Prediction F)
      → qualifies policy floor p ≡ true
      → (p.eligible ≡ true)
        × (policy.minimum_samples ≤ℤ p.samples)
        × (ltf (p.lower_bound ⊕ epsilon) floor ≡ false)
  unfolding qualifies
  qualifies-parts policy floor p h = ground arith

  predicted-incumbent :
      (tenant_id : String) (policy : Policy F) (request : Request F)
      → (predicted_decision a e tenant_id policy request).selected_model ≡ policy.incumbent_model
  unfolding predicted_decision initial_decision
  predicted-incumbent tenant_id policy request = refl

  route-allocate :
      (tenant_id : String) (policy : Policy F) (request : Request F) (decision : RouteDecision F)
      → route a e tenant_id policy request ≡ some decision
      → (decision.selected_model ≡ policy.incumbent_model)
        ⊎ ((policy.drifted ≡ false)
            × (is_observe policy.mode ≡ false)
            × (is_shadow policy.mode ≡ false)
            × Chosen a policy request (predicted_decision a e tenant_id policy request) decision)
  unfolding route
  route-allocate tenant_id policy request decision h =
      let before = predicted_decision a e tenant_id policy request in
      let shadowed : RouteDecision F = record before {
        shadow_models = shadow_candidates policy before.predictions;
      } in
      let kept : before.selected_model ≡ policy.incumbent_model =
        predicted-incumbent tenant_id policy request in
      ground (arith, allocate-Chosen a policy request shadowed decision kept)

  -- The model that a passed candidate comes from.
  IsRouted-of_candidate :
      (tenant_id : String) (policy : Policy F) (request : Request F) (decision : RouteDecision F)
      (success : F) (p : Prediction F)
      → decision.selected_model ≡ p.model_id
      → IsCandidate policy
          (success ⊖ policy.quality_tolerance)
          (predicted_decision a e tenant_id policy request).predictions
          policy.candidate_models
          p
      → policy.drifted ≡ false
      → is_observe policy.mode ≡ false
      → is_shadow policy.mode ≡ false
      → IsRouted policy request success decision
  unfolding predict
  IsRouted-of_candidate tenant_id policy request decision success p sel (k, i, from, ok) dr ob sh =
      let floor = success ⊖ policy.quality_tolerance in
      let (elig, samples, above) = qualifies-parts policy floor p ok in
      let (model, found, same) =
        eligible-sourced a e policy request
          (predicted_decision a e tenant_id policy request).predictions k
          (predictions-IsSourced a e policy request tenant_id) (rw (← from) elig) in
      let p-predict : p ≡ predict a.fold a.visit e policy model request = from ∙ same in
      record {
        model_id = k;
        model = model;
        is_candidate = i;
        in_catalog = found;
        is_selected = sel ∙ ap (λ (q : Prediction F). q.model_id) p-predict;
        feasible =
            infeasible_reason-IsFeasible a.fold e policy model request
              (estimate_cost model request.features)
              (sym (ap (λ (q : Prediction F). q.eligible) p-predict) ∙ elig);
        sampled = rw p-predict at samples;
        above_floor = rw p-predict at above;
        not_drifted = dr;
        not_observing = ob;
        not_shadowing = sh;
      }

  -- For a policy whose incumbent is in the catalog: the decision keeps the incumbent, or it takes a
  -- candidate of the policy that meets every hard constraint, has the minimum of samples and is not
  -- below the quality floor, and the policy has not drifted and neither observes nor shadows.
  pub route-IsRouted :
      (tenant_id : String) (policy : Policy F) (request : Request F) (decision : RouteDecision F)
      (incumbent : Model F)
      → lookup policy.incumbent_model e.catalog ≡ some incumbent
      → (policy.incumbent_model == "") ≡ false
      → route a e tenant_id policy request ≡ some decision
      → (decision.selected_model ≡ policy.incumbent_model)
        ⊎ IsRouted policy request
            (predict a.fold a.visit e policy incumbent request).success
            decision
  route-IsRouted tenant_id policy request decision incumbent found named h =
      let inc =
        predicted_decision-covers a e policy request tenant_id policy.incumbent_model incumbent
          found (incumbent-In policy named) in
      elim (route-allocate tenant_id policy request decision h) [
        | inl kept ↦ inl kept
        | inr (dr, ob, sh, inl kept) ↦ inl kept
        | inr (dr, ob, sh, inr (p, sel, cand)) ↦ inr (
            IsRouted-of_candidate tenant_id policy request decision _ p sel (rw inc at cand) dr ob
              sh)
      ]
