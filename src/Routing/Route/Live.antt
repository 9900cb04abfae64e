-- ===== src/Routing/Route/Live.antt =====
-- What holds of the requests that a live policy optimizes.
use mathlib.Core.Option.{some-injective}
use outcome_router.Base.{
  String, ◌≡◌, refl, sym, ◌∙◌, ap, ◌⊎◌, inl, inr, true, false, some, List, [], ◌∷◌, arith, text_ne,
  ◌<>◌, In, get_elem?,
}
use outcome_router.Double.{Double, ◌⊕◌, ltf, lef, zero_float}
use outcome_router.Double.Laws.{IsOrdered}
use outcome_router.Domain.{Policy, Prediction, RouteDecision, is_canary, is_low}
use outcome_router.Routing.Feasible.{Request, Engine}
use outcome_router.Routing.Hash.{hash_percent}
use outcome_router.Routing.Select.{sort_slice, cheaper}
use outcome_router.Routing.Select.Members.{choose-In, In-sort_slice}
use outcome_router.Routing.Select.Cheapest.{AreComparable, NoBetter, sorted-NoBetter}
use outcome_router.Routing.Route.{Ambient, trace_id_of, route}
use outcome_router.Routing.Route.Buckets.{
  IsPicked, IsLive, control_hash, route_candidates, choose-bucket, shadowed_decision, route-cases,
  keeps_trace,
}

first_of :
    {A : Type 0} (xs : List A) (x : A) → get_elem? xs 0 ≡ some x → (rest : List A) × (xs ≡ x ∷ rest)
first_of [] x h = cc
first_of (y ∷ ys) x h = (ys, ap (λ z. z ∷ ys) (some-injective _ _ h))

module _ {F : Type 0} ⦃d : Double F⦄ (a : Ambient F) (e : Engine F) (tenant_id : String)
    (policy : Policy F) (request : Request F) where
  -- A request explores only if its risk class is low, the policy explores at all, is live, the
  -- trace's hash for exploration is below the percentage, the trace is not in the control group,
  -- and it is inside the canary if there is one.
  pub route_exploration :
      (decision : RouteDecision F)
      → route a e tenant_id policy request ≡ some decision
      → decision.bucket ≡ "exploration"
      → (is_low request.metadata.risk_class ≡ true)
        × (ltf zero_float policy.exploration_percent ≡ true)
        × (ltf
              (hash_percent (trace_id_of a request <> "|explore|" <> policy.version))
              policy.exploration_percent
            ≡ true)
        × IsLive a e tenant_id policy request
        × (ltf (control_hash a e tenant_id policy request) policy.control_percent ≡ false)
        × ((is_canary policy.mode ≡ false)
            ⊎ (lef
                  (policy.control_percent ⊕ policy.canary_percent)
                  (control_hash a e tenant_id policy request)
                ≡ false))
  route_exploration decision h b = elim (route-cases a e tenant_id policy request decision h) [
    | inl i ↦ absurd (text_ne "incumbent" "exploration" refl (sym i ∙ b))
    | inr (inl (live, (c, _, _, _))) ↦ absurd (text_ne "control" "exploration" refl (sym c ∙ b))
    | inr (inr (live, admitted, k)) ↦ ground (
      arith,
      choose-bucket policy request (shadowed_decision a e tenant_id policy request).trace_id
          (sort_slice cheaper
            (route_candidates policy (shadowed_decision a e tenant_id policy request)))
          k.bucket k.picked k.chosen,
      keeps_trace a e tenant_id policy request,
      text_ne "treatment" "exploration" refl,
    )
  ]

  -- The candidates that pass the filters of this call.
  abbrev pub live_candidates : List (Prediction F)
  live_candidates = route_candidates policy (shadowed_decision a e tenant_id policy request)

  picked-best :
      (ordered : IsOrdered F) (decision : RouteDecision F)
      → AreComparable live_candidates
      → IsPicked a policy request (shadowed_decision a e tenant_id policy request) decision
      → decision.bucket ≡ "treatment"
      → (selected : Prediction F) × In selected live_candidates
        × (decision.selected_model ≡ selected.model_id)
        × (decision.estimated_cost_usd ≡ selected.estimated_cost_usd)
        × ((p : Prediction F) → In p live_candidates → NoBetter p selected)
  picked-best ordered decision comparable k b =
      let trace = (shadowed_decision a e tenant_id policy request).trace_id in
      let sorted = sort_slice cheaper live_candidates in
      let first : get_elem? sorted 0 ≡ some k.picked = ground (
        arith,
        choose-bucket policy request trace sorted k.bucket k.picked k.chosen,
        text_ne "exploration" "treatment" refl,
      ) in
      let (rest, shape) = first_of sorted k.picked first in
      let i =
        In-sort_slice cheaper live_candidates k.picked
          (choose-In policy request trace sorted k.bucket k.picked k.chosen) in
      (
        k.picked,
        i,
        k.is_selected,
        k.at_cost,
        sorted-NoBetter ordered live_candidates comparable k.picked rest i shape,
      )

  -- For a decision of `Route` in the treatment bucket, with an order as `IsOrdered` says, if
  -- costs and lower bounds are numbers and costs that differ by less than the tolerance are
  -- equal: the decision records the model and the cost of a candidate that no candidate
  -- undercuts, and that has the highest lower bound among those of its cost.
  pub route_cheapest :
      (ordered : IsOrdered F) (decision : RouteDecision F)
      → AreComparable live_candidates
      → route a e tenant_id policy request ≡ some decision
      → decision.bucket ≡ "treatment"
      → (selected : Prediction F) × In selected live_candidates
        × (decision.selected_model ≡ selected.model_id)
        × (decision.estimated_cost_usd ≡ selected.estimated_cost_usd)
        × ((p : Prediction F) → In p live_candidates → NoBetter p selected)
  route_cheapest ordered decision comparable h b =
      elim (route-cases a e tenant_id policy request decision h) [
        | inl i ↦ absurd (text_ne "incumbent" "treatment" refl (sym i ∙ b))
        | inr (inl (live, (c, _, _, _))) ↦ absurd (text_ne "control" "treatment" refl (sym c ∙ b))
        | inr (inr (live, admitted, k)) ↦ picked-best ordered decision comparable k b
      ]
