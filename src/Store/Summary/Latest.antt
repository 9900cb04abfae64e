-- ===== src/Store/Summary/Latest.antt =====
-- The last outcome of a trace is the one that counts.
use outcome_router.Base.{
  String, ◌≡◌, refl, sym, ◌∙◌, not, ◌&&◌, Option, none, some, List, [], ◌∷◌, Map, lookup,
  lookup-insert, lookup-insert_self, eq_refl, later_of, later_of_assoc, later_of-none,
  if◌then◌else◌, ◌==◌, eq_iff, arith, Bool-cases, inl, inr,
}
use outcome_router.Double.{Double}
use outcome_router.Domain.{RouteDecision, Outcome, ModelSummary, numeric_value}
use outcome_router.Store.Tally.{Query}
use outcome_router.Store.Summary.{
  OutcomePoint, OutcomeTally, is_primary, outcome_trace, add_point, add_outcome, tally_outcome,
  tally_outcomes,
}

abbrev pub point_of : {F : Type 0} → String → Option F → Option (OutcomePoint F)
point_of trace none = none
point_of trace (some value) = some (record { value = value; trace = trace })

point_of-later :
    {F : Type 0} (trace : String) (a b : Option F)
    → later_of (point_of trace a) (point_of trace b) ≡ point_of trace (later_of a b)
point_of-later trace a none = refl
point_of-later trace a (some b) = refl

add_point-lookup :
    {F : Type 0} (trace at : String) (value : F) (points : Map (OutcomePoint F))
    → lookup trace (add_point at value points)
      ≡ later_of
          (lookup trace points)
          (point_of trace (if at == trace && not (trace == "") then some value else none))
add_point-lookup trace at value points = elim (Bool-cases (at == trace)) [
  | inl here ↦
      let same : at ≡ trace = (eq_iff at trace).0 here in
      elim (Bool-cases (trace == "")) [
        | inl blank ↦ rw (same, eq_refl, blank) refl
        | inr full ↦ rw (same, eq_refl, full) (lookup-insert_self trace _ points)
      ]
  | inr other ↦
      let kept = lookup-insert at trace (record { value = value; trace = at }) points in
      elim (Bool-cases (at == "")) [
        | inl blank ↦ rw (other, blank) refl
        | inr full ↦ rw (full, kept, other) refl
      ]
]

module _ {F : Type 0} ⦃d : Double F⦄ (q : Query) (primary : String)
    (decisions : Map (RouteDecision F)) where
  -- The value that an outcome gives its trace, if this is the trace.
  abbrev pub value_for : String → Outcome F → Option F
  value_for trace o =
      if is_primary q primary o && outcome_trace decisions o == trace && not (trace == "")
      then numeric_value o.value
      else none

  -- The value of the last outcome of the trace that counts.
  abbrev pub latest : String → List (Outcome F) → Option F
  latest trace [] = none
  latest trace (o ∷ outcomes) =
      let later = latest trace outcomes in later_of (value_for trace o) later

  add_outcome-lookup :
      (trace : String) (o : Outcome F) (value : Option F) (t : OutcomeTally F)
      → lookup trace (add_outcome decisions o value t).primary_by_trace
        ≡ later_of (lookup trace t.primary_by_trace) (
            point_of trace
              (if outcome_trace decisions o == trace && not (trace == "") then value else none))
  add_outcome-lookup trace o none t = ground arith
  add_outcome-lookup trace o (some value) t =
      add_point-lookup trace (outcome_trace decisions o) value t.primary_by_trace

  tally_outcome-lookup :
      (trace : String) (o : Outcome F) (t : OutcomeTally F)
      → lookup trace (tally_outcome q primary decisions o t).primary_by_trace
        ≡ later_of (lookup trace t.primary_by_trace) (point_of trace (value_for trace o))
  unfolding tally_outcome
  tally_outcome-lookup trace o t = elim (Bool-cases (is_primary q primary o)) [
    | inl counts ↦ rw counts (add_outcome-lookup trace o (numeric_value o.value) t)
    | inr skipped ↦ rw skipped refl
  ]

  tally_outcomes-lookup :
      (trace : String) (outcomes : List (Outcome F)) (t : OutcomeTally F)
      → lookup trace (tally_outcomes q primary decisions outcomes t).primary_by_trace
        ≡ later_of (lookup trace t.primary_by_trace) (point_of trace (latest trace outcomes))
  unfolding tally_outcomes
  tally_outcomes-lookup trace [] t = refl
  tally_outcomes-lookup trace (o ∷ outcomes) t =
      tally_outcomes-lookup trace outcomes (tally_outcome q primary decisions o t)
      ∙ rw
          (
            tally_outcome-lookup trace o t,
            later_of_assoc (lookup trace t.primary_by_trace) (point_of trace (value_for trace o))
                (point_of trace (latest trace outcomes)),
            point_of-later trace (value_for trace o) (latest trace outcomes),
          )
          refl

  -- Behind the loop over the outcomes, the point of a trace holds the value of the last outcome, in
  -- the order in which they were stored, that has the tenant and the type asked for, is recent enough,
  -- has a number, a Boolean or `null`, read as 0, as its value, and belongs to the trace: it names the
  -- trace, or it names none and names a counted decision of the trace. There is no point where there
  -- is none such.
  pub tally_outcomes_lem :
      (trace : String) (outcomes : List (Outcome F)) (models : Map (ModelSummary F))
      → lookup trace
          (tally_outcomes q primary decisions outcomes
            (record { by_model = models; primary_by_trace = [] })).primary_by_trace
        ≡ point_of trace (latest trace outcomes)
  unfolding lookup
  tally_outcomes_lem trace outcomes models =
      tally_outcomes-lookup trace outcomes (record { by_model = models; primary_by_trace = [] })
      ∙ sym (later_of-none (point_of trace (latest trace outcomes)))
