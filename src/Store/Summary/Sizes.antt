-- ===== src/Store/Summary/Sizes.antt =====
-- How many traces are in each group of the comparison.
use outcome_router.Base.{
  ℕ, ◌+◌, String, ◌≡◌, refl, ◌∙◌, ◌↔◌, Bool, true, false, not, ◌&&◌, Option, none, some, List, [],
  ◌∷◌, Map, lookup, get_or, if◌then◌else◌, ◌==◌, eq_iff, arith, Bool-cases, In, inl, inr, contains,
  In-contains, contains-In, is_some, keys, contains-keys, NoneTwice, insert-NoneTwice, nat_eq,
}
use outcome_router.Double.{Double}
use outcome_router.Domain.{Time, RouteDecision, Outcome, numeric_value}
use outcome_router.Store.Tally.{Query, tally, no_tally}
use outcome_router.Store.Tally.Groups.{has_treated, has_request, trace_groups_lem}
use outcome_router.Store.Summary.{
  OutcomePoint, OutcomeTally, Groups, is_primary, outcome_trace, add_point, add_outcome,
  tally_outcome, tally_outcomes, no_groups, add_to_group, group_points, wilson, summarize,
}
use outcome_router.Store.Summary.Latest.{latest, point_of, tally_outcomes_lem}

-- How many of the texts pass the test.
abbrev pub count_if : (String → Bool) → List String → ℕ
count_if test [] = 0
count_if test (x ∷ xs) = let n = count_if test xs in if test x then n + 1 else n

count_if-ext :
    (test other : String → Bool) (xs : List String)
    → ((x : String) → test x ≡ other x)
    → count_if test xs ≡ count_if other xs
count_if-ext test other [] same = refl
count_if-ext test other (x ∷ xs) same = rw (same x, count_if-ext test other xs same) refl

abbrev is_in : String → Map String → String → Bool
is_in group buckets trace = get_or (lookup trace buckets) "" == group

add_point-NoneTwice :
    {F : Type 0} (trace : String) (value : F) (points : Map (OutcomePoint F))
    → NoneTwice (keys points)
    → NoneTwice (keys (add_point trace value points))
add_point-NoneTwice trace value points once = elim (Bool-cases (trace == "")) [
  | inl blank ↦ rw blank once
  | inr full ↦ rw full (insert-NoneTwice trace _ points once)
]

group_of : Bool → Bool → Option String
group_of treated requested =
    if treated then some "treatment" else if requested then some "control" else none

in_treatment : (a b : Bool) → (get_or (group_of a b) "" == "treatment") ≡ a
unfolding group_of
in_treatment true b = refl
in_treatment false true = refl
in_treatment false false = refl

in_control : (a b : Bool) → (get_or (group_of a b) "" == "control") ≡ (not a && b)
unfolding group_of
in_control true b = refl
in_control false true = refl
in_control false false = refl

point_of-is_some :
    {F : Type 0} (trace : String) (value : Option F)
    → is_some (point_of trace value) ≡ is_some value
point_of-is_some trace none = refl
point_of-is_some trace (some value) = refl

from_zero : (n : ℕ) → 0 + n ≡ n
from_zero n = omega arith

module _ {F : Type 0} ⦃d : Double F⦄ where
  wilson-n : (successes : F) (n : ℕ) (z : F) → (wilson successes n z).n ≡ n
  unfolding wilson
  wilson-n successes n z = elim (Bool-cases (nat_eq n 0)) [
    | inl zero ↦ rw zero (ground arith)
    | inr more ↦ rw more refl
  ]

  add_to_group-n :
      (group : String) (value : F) (g : Groups F)
      → ((add_to_group group value g).treatment_n
          ≡ (if group == "treatment" then g.treatment_n + 1 else g.treatment_n))
        × ((add_to_group group value g).control_n
            ≡ (if group == "control" then g.control_n + 1 else g.control_n))
  add_to_group-n group value g = elim (Bool-cases (group == "treatment")) [
    | inl treated ↦
        let same : group ≡ "treatment" = (eq_iff group "treatment").0 treated in
        rw same (refl, refl)
    | inr other ↦ elim (Bool-cases (group == "control")) [
      | inl control ↦ rw (other, control) (refl, refl)
      | inr neither ↦ rw (other, neither) (refl, refl)
    ]
  ]

  group_points-n :
      (buckets : Map String) (points : Map (OutcomePoint F)) (g : Groups F)
      → ((group_points buckets points g).treatment_n
          ≡ g.treatment_n + count_if (is_in "treatment" buckets) (keys points))
        × ((group_points buckets points g).control_n
            ≡ g.control_n + count_if (is_in "control" buckets) (keys points))
  unfolding group_points
  group_points-n buckets [] g = (omega arith, omega arith)
  group_points-n buckets ((trace, point) ∷ points) g =
      let group = get_or (lookup trace buckets) "" in
      let (t, c) = group_points-n buckets points (add_to_group group point.value g) in
      let (t1, c1) = add_to_group-n group point.value g in
      (t ∙ rw t1 (ground arith), c ∙ rw c1 (ground arith))

  add_outcome-NoneTwice :
      (decisions : Map (RouteDecision F)) (o : Outcome F) (value : Option F) (t : OutcomeTally F)
      → NoneTwice (keys t.primary_by_trace)
      → NoneTwice (keys (add_outcome decisions o value t).primary_by_trace)
  add_outcome-NoneTwice decisions o none t once = once
  add_outcome-NoneTwice decisions o (some value) t once =
      add_point-NoneTwice (outcome_trace decisions o) value t.primary_by_trace once

  tally_outcome-NoneTwice :
      (q : Query) (primary : String) (decisions : Map (RouteDecision F)) (o : Outcome F)
      (t : OutcomeTally F)
      → NoneTwice (keys t.primary_by_trace)
      → NoneTwice (keys (tally_outcome q primary decisions o t).primary_by_trace)
  unfolding tally_outcome
  tally_outcome-NoneTwice q primary decisions o t once =
      elim (Bool-cases (is_primary q primary o)) [
        | inl counts ↦ rw counts (add_outcome-NoneTwice decisions o (numeric_value o.value) t once)
        | inr skipped ↦ rw skipped once
      ]

  tally_outcomes-NoneTwice :
      (q : Query) (primary : String) (decisions : Map (RouteDecision F))
      (outcomes : List (Outcome F)) (t : OutcomeTally F)
      → NoneTwice (keys t.primary_by_trace)
      → NoneTwice (keys (tally_outcomes q primary decisions outcomes t).primary_by_trace)
  unfolding tally_outcomes
  tally_outcomes-NoneTwice q primary decisions [] t once = once
  tally_outcomes-NoneTwice q primary decisions (o ∷ outcomes) t once =
      tally_outcomes-NoneTwice q primary decisions outcomes (tally_outcome q primary decisions o t)
        (tally_outcome-NoneTwice q primary decisions o t once)

  treated_trace :
      (q : Query) (decisions : List (RouteDecision F)) (trace : String)
      → is_in "treatment" (tally q decisions no_tally).trace_buckets trace
        ≡ has_treated q trace decisions
  unfolding group_of
  treated_trace q decisions trace =
      rw (trace_groups_lem q trace decisions)
        (in_treatment (has_treated q trace decisions) (has_request q trace decisions))

  control_trace :
      (q : Query) (decisions : List (RouteDecision F)) (trace : String)
      → is_in "control" (tally q decisions no_tally).trace_buckets trace
        ≡ (not (has_treated q trace decisions) && has_request q trace decisions)
  unfolding group_of
  control_trace q decisions trace =
      rw (trace_groups_lem q trace decisions)
        (in_control (has_treated q trace decisions) (has_request q trace decisions))

  In-points :
      (points : Map (OutcomePoint F)) (trace : String) (value : Option F)
      → lookup trace points ≡ point_of trace value
      → In trace (keys points) ↔ (is_some value ≡ true)
  In-points points trace value found =
      let same : contains (keys points) trace ≡ is_some value =
        contains-keys points trace ∙ rw found (point_of-is_some trace value) in
      (
        λ i. rw (← same) (In-contains (keys points) trace i),
        λ h. contains-In (keys points) trace (same ∙ h),
      )

  -- The groups of a summary have one entry for each trace with an outcome that counts, once however
  -- many outcomes it has: the treatment group those of a trace with a treated request, and the control
  -- group those of a trace with requests of which none was treated.
  pub summarize_sizes :
      (q : Query) (primary : String) (now : Time) (decisions : List (RouteDecision F))
      (outcomes : List (Outcome F))
      → (traces : List String) × NoneTwice traces
        × ((trace : String)
            → In trace traces ↔ (
                is_some (latest q primary (tally q decisions no_tally).decisions trace outcomes)
                ≡ true))
        × ((summarize q primary now decisions outcomes).treatment_outcome.n
            ≡ count_if (λ trace. has_treated q trace decisions) traces)
        × ((summarize q primary now decisions outcomes).control_outcome.n
            ≡ count_if
                (λ trace. not (has_treated q trace decisions) && has_request q trace decisions)
                traces)
  unfolding summarize
  summarize_sizes q primary now decisions outcomes =
      let t = tally q decisions no_tally in
      let start : OutcomeTally F = record { by_model = t.by_model; primary_by_trace = [] } in
      let o = tally_outcomes q primary t.decisions outcomes start in
      let (treated, controls) = group_points-n t.trace_buckets o.primary_by_trace no_groups in
      (
        keys o.primary_by_trace,
        tally_outcomes-NoneTwice q primary t.decisions outcomes start tt,
        λ trace.
            In-points o.primary_by_trace trace (latest q primary t.decisions trace outcomes)
              (tally_outcomes_lem q primary t.decisions trace outcomes t.by_model),
        wilson-n _ _ _
            ∙ treated
            ∙ from_zero _
            ∙ count_if-ext _ _ (keys o.primary_by_trace) (treated_trace q decisions),
        wilson-n _ _ _
            ∙ controls
            ∙ from_zero _
            ∙ count_if-ext _ _ (keys o.primary_by_trace) (control_trace q decisions),
      )
