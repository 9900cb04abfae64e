-- ===== src/Store/Summary/Proportions.antt =====
-- The intervals and the rates of a summary, when the values of the outcomes are between 0 and 1.
use outcome_router.Base.{
  ℕ, suc, ◌+◌, ◌^◌, ◌≤◌, ◌<◌, String, ◌≡◌, refl, Option, none, some, List, [], ◌∷◌, Map, lookup,
  get_or, ◌==◌, All, AllValues, insert-AllValues, length-insert, length, arith, Bool-cases, inl,
  inr,
}
use outcome_router.Double.{Double, zero_float}
use outcome_router.Double.Laws.{IsOrdered, IsRounded, Within, ◌≺◌}
use outcome_router.Double.Monotone.{IsMonotone}
use outcome_router.Domain.{Time, RouteDecision, Outcome, numeric_value}
use outcome_router.Store.Tally.{Query, tally, no_tally}
use outcome_router.Store.Summary.{
  OutcomePoint, OutcomeTally, Groups, is_primary, outcome_trace, add_point, add_outcome,
  tally_outcome, tally_outcomes, no_groups, add_to_group, group_points, summarize,
}
use outcome_router.Store.Summary.Rates.{HasProportion, summarize-HasProportion}
use outcome_router.Store.Summary.Bounds.{IsProportion, IsRated, zero-Within, wilson-IsProportion}

module _ {F : Type 0} ⦃d : Double F⦄ where
  -- Points between 0 and 1, at most n of them.
  abbrev ArePoints : ℕ → Map (OutcomePoint F) → Type 0
  ArePoints n points =
      AllValues (λ (point : OutcomePoint F). Within 1 point.value) points × (length points ≤ n)

  add_point-ArePoints :
      (n : ℕ) (trace : String) (value : F) (points : Map (OutcomePoint F))
      → Within 1 value
      → ArePoints n points
      → ArePoints (suc n) (add_point trace value points)
  add_point-ArePoints n trace value points h (all, small) =
      let more = length-insert trace (record { value = value; trace = trace }) points in
      elim (Bool-cases (trace == "")) [
        | inl blank ↦ rw blank (all, omega arith)
        | inr full ↦
            rw full (insert-AllValues (λ p. Within 1 p.value) trace _ points h all, omega arith)
      ]

  add_outcome-ArePoints :
      (n : ℕ) (decisions : Map (RouteDecision F)) (o : Outcome F) (value : Option F)
      (t : OutcomeTally F)
      → ((x : F) → value ≡ some x → Within 1 x)
      → ArePoints n t.primary_by_trace
      → ArePoints (suc n) (add_outcome decisions o value t).primary_by_trace
  add_outcome-ArePoints n decisions o none t rated (all, small) = (all, omega arith)
  add_outcome-ArePoints n decisions o (some value) t rated points =
      add_point-ArePoints n (outcome_trace decisions o) value t.primary_by_trace (rated value refl)
        points

  tally_outcomes-ArePoints :
      (n : ℕ) (q : Query) (primary : String) (decisions : Map (RouteDecision F))
      (outcomes : List (Outcome F)) (t : OutcomeTally F)
      → All IsRated outcomes
      → ArePoints n t.primary_by_trace
      → ArePoints
          (length outcomes + n)
          (tally_outcomes q primary decisions outcomes t).primary_by_trace
  unfolding tally_outcomes tally_outcome
  tally_outcomes-ArePoints n q primary decisions [] t rated (all, small) = (all, omega arith)
  tally_outcomes-ArePoints n q primary decisions (o ∷ outcomes) t (r, rated) (all, small) =
      let next =
        elim (Bool-cases (is_primary q primary o))
          as (λ _. ArePoints (suc n) (tally_outcome q primary decisions o t).primary_by_trace) [
            | inl counts ↦
                rw counts
                  (add_outcome-ArePoints n decisions o (numeric_value o.value) t r (all, small))
            | inr skipped ↦ rw skipped (all, omega arith)
          ] in
      let (within, bound) =
        tally_outcomes-ArePoints (suc n) q primary decisions outcomes
          (tally_outcome q primary decisions o t) rated next in
      (within, omega arith)

  -- Successes that are at most as many as the traces, in each group, with at most n traces.
  abbrev AreGroups : ℕ → Groups F → Type 0
  AreGroups n g =
      Within g.treatment_n g.treatment_success
      × Within g.control_n g.control_success
      × (g.treatment_n ≤ n)
      × (g.control_n ≤ n)

  module _ (rounded : IsRounded F) (monotone : IsMonotone F) where
    add_to_group-AreGroups :
        (n : ℕ) (group : String) (value : F) (g : Groups F)
        → suc n < 2 ^ 53
        → Within 1 value
        → AreGroups n g
        → AreGroups (suc n) (add_to_group group value g)
    add_to_group-AreGroups n group value g small h (t, c, tn, cn) =
        elim (Bool-cases (group == "treatment")) [
          | inl treated ↦ rw treated (
            monotone.add-Within g.treatment_n 1 _ value (omega arith) t h,
            c,
            omega arith,
            omega arith,
          )
          | inr other ↦ elim (Bool-cases (group == "control")) [
            | inl control ↦
                rw (other, control)
                  (
                    t,
                    monotone.add-Within g.control_n 1 _ value (omega arith) c h,
                    omega arith,
                    omega arith,
                  )
            | inr neither ↦ rw (other, neither) (t, c, omega arith, omega arith)
          ]
        ]

    group_points-AreGroups :
        (n : ℕ) (buckets : Map String) (points : Map (OutcomePoint F)) (g : Groups F)
        → n + length points < 2 ^ 53
        → AllValues (λ (point : OutcomePoint F). Within 1 point.value) points
        → AreGroups n g
        → AreGroups (n + length points) (group_points buckets points g)
    unfolding group_points
    group_points-AreGroups n buckets [] g small all (t, c, tn, cn) =
        (t, c, omega arith, omega arith)
    group_points-AreGroups n buckets ((trace, point) ∷ points) g small (h, all) groups =
        let group = get_or (lookup trace buckets) "" in
        let next = add_to_group-AreGroups n group point.value g (omega arith) h groups in
        let (t, c, tn, cn) =
          group_points-AreGroups (suc n) buckets points (add_to_group group point.value g)
            (omega arith) all next in
        (t, c, omega arith, omega arith)

  -- When the outcomes are fewer than 2 ^ 53 and those with a value have one between 0 and 1, both
  -- intervals of a summary, of the treated traces and of the controls, have an estimate and ends from
  -- 0 to 1 with the lower end not above the upper, and the success rate of every model is from 0 to 1.
  pub summarize-IsProportion :
      IsOrdered F
      → IsRounded F
      → IsMonotone F
      → ◌≺◌ {F = F} zero_float (d.decimal 196 2)
      → Within {F = F} 2 (d.decimal 196 2)
      → (q : Query) (primary : String) (now : Time) (decisions : List (RouteDecision F))
        (outcomes : List (Outcome F))
      → length outcomes < 2 ^ 53
      → All IsRated outcomes
      → IsProportion (summarize q primary now decisions outcomes).treatment_outcome
        × IsProportion (summarize q primary now decisions outcomes).control_outcome
        × AllValues HasProportion (summarize q primary now decisions outcomes).by_model
  unfolding summarize
  summarize-IsProportion ordered rounded monotone positive bound q primary now decisions outcomes
        small rated =
      let t = tally q decisions no_tally in
      let start : OutcomeTally F = record { by_model = t.by_model; primary_by_trace = [] } in
      let o = tally_outcomes q primary t.decisions outcomes start in
      let (within, count) =
        tally_outcomes-ArePoints 0 q primary t.decisions outcomes start rated (tt, omega arith) in
      let zero = zero-Within rounded in
      let (treated, controls, n, m) =
        group_points-AreGroups rounded monotone 0 t.trace_buckets o.primary_by_trace no_groups
          (omega arith) within (zero, zero, omega arith, omega arith) in
      let z = d.decimal 196 2 in
      (
        wilson-IsProportion ordered rounded monotone _ _ z (omega arith) treated positive bound,
        wilson-IsProportion ordered rounded monotone _ _ z (omega arith) controls positive bound,
        summarize-HasProportion rounded monotone q primary now decisions outcomes small rated,
      )
