-- ===== src/Store/Summary/Rates.antt =====
-- The rates of the models in a summary, when the values of the outcomes are between 0 and 1.
use outcome_router.Base.{
  ℕ, zero, suc, ◌+◌, ◌^◌, ◌≤◌, ◌<◌, String, ◌≡◌, refl, false, Option, none, some, List, [], ◌∷◌,
  Map, All, AllValues, insert-AllValues, lookup-AllValues, length, arith, nat_eq, Bool-cases, inl,
  inr,
}
use outcome_router.Base.Int.{pos}
use outcome_router.Double.{Double, zero_float, one_float}
use outcome_router.Double.Laws.{IsRounded, Within, ◌≼◌}
use outcome_router.Double.Monotone.{IsMonotone}
use outcome_router.Domain.{Time, RouteDecision, Outcome, ModelSummary, numeric_value}
use outcome_router.Store.Tally.{
  Query, Tally, tally, tally_one, no_tally, no_summary, add_model, is_counted, is_shadow_decision,
  model_of,
}
use outcome_router.Store.Summary.{
  OutcomeTally, is_primary, decision_named, add_success, add_outcome, tally_outcome, tally_outcomes,
  with_rate, with_rates, summarize,
}
use outcome_router.Store.Summary.Bounds.{IsRated, zero-Within}

module _ {F : Type 0} ⦃d : Double F⦄ where
  -- No more successes than outcomes, of which there are at most n, and no rate yet.
  abbrev IsUnrated : ℕ → ModelSummary F → Type 0
  IsUnrated n model =
      Within model.outcomes model.successes
      × (model.outcomes ≤ n)
      × (model.success_rate ≡ zero_float)

  abbrev pub HasProportion : ModelSummary F → Type 0
  HasProportion model = (zero_float ≼ model.success_rate) × (model.success_rate ≼ one_float)

  more_outcomes :
      (n : ℕ) (models : Map (ModelSummary F))
      → AllValues (IsUnrated n) models
      → AllValues (IsUnrated (suc n)) models
  more_outcomes n [] all = tt
  more_outcomes n ((id, model) ∷ models) ((within, small, rate), all) =
      ((within, omega arith, rate), more_outcomes n models all)

  module _ (rounded : IsRounded F) where
    no_summary-IsUnrated : (n : ℕ) → IsUnrated n (no_summary)
    no_summary-IsUnrated n = (zero-Within rounded, omega arith, refl)

    add_model-IsUnrated :
        (n : ℕ) (decision : RouteDecision F) (models : Map (ModelSummary F))
        → AllValues (IsUnrated n) models
        → AllValues (IsUnrated n) (add_model decision models)
    add_model-IsUnrated n decision models all =
        insert-AllValues (IsUnrated n) (model_of decision) _ models
          (lookup-AllValues (IsUnrated n) (model_of decision) no_summary models
            (no_summary-IsUnrated n) all)
          all

    tally_one-IsUnrated :
        (n : ℕ) (q : Query) (decision : RouteDecision F) (t : Tally F)
        → AllValues (IsUnrated n) t.by_model
        → AllValues (IsUnrated n) (tally_one q decision t).by_model
    unfolding tally_one
    tally_one-IsUnrated n q decision t all = elim (Bool-cases (is_counted q decision)) [
      | inr skipped ↦ rw skipped all
      | inl counted ↦ elim (Bool-cases (is_shadow_decision decision)) [
        | inl shadow ↦ rw (counted, shadow) all
        | inr request ↦ rw (counted, request) (add_model-IsUnrated n decision t.by_model all)
      ]
    ]

    tally-IsUnrated :
        (n : ℕ) (q : Query) (decisions : List (RouteDecision F)) (t : Tally F)
        → AllValues (IsUnrated n) t.by_model
        → AllValues (IsUnrated n) (tally q decisions t).by_model
    unfolding tally
    tally-IsUnrated n q [] t all = all
    tally-IsUnrated n q (decision ∷ decisions) t all =
        tally-IsUnrated n q decisions (tally_one q decision t)
          (tally_one-IsUnrated n q decision t all)

    module _ (monotone : IsMonotone F) where
      add_success-IsUnrated :
          (n : ℕ) (value : F) (decision : Option (RouteDecision F)) (models : Map (ModelSummary F))
          → suc n < 2 ^ 53
          → Within 1 value
          → AllValues (IsUnrated n) models
          → AllValues (IsUnrated (suc n)) (add_success value decision models)
      add_success-IsUnrated n value none models small h all = more_outcomes n models all
      add_success-IsUnrated n value (some decision) models small h all =
          let (within, bound, rate) =
            lookup-AllValues (IsUnrated n) (model_of decision) no_summary models
              (no_summary-IsUnrated n) all in
          insert-AllValues (IsUnrated (suc n)) (model_of decision) _ models
            (monotone.add-Within _ 1 _ value (omega arith) within h, omega arith, rate)
            (more_outcomes n models all)

      add_outcome-IsUnrated :
          (n : ℕ) (decisions : Map (RouteDecision F)) (o : Outcome F) (value : Option F)
          (t : OutcomeTally F)
          → suc n < 2 ^ 53
          → ((x : F) → value ≡ some x → Within 1 x)
          → AllValues (IsUnrated n) t.by_model
          → AllValues (IsUnrated (suc n)) (add_outcome decisions o value t).by_model
      add_outcome-IsUnrated n decisions o none t small rated all = more_outcomes n t.by_model all
      add_outcome-IsUnrated n decisions o (some value) t small rated all =
          add_success-IsUnrated n value (decision_named decisions o) t.by_model small
            (rated value refl) all

      tally_outcomes-IsUnrated :
          (n : ℕ) (q : Query) (primary : String) (decisions : Map (RouteDecision F))
          (outcomes : List (Outcome F)) (t : OutcomeTally F)
          → length outcomes + n < 2 ^ 53
          → All IsRated outcomes
          → AllValues (IsUnrated n) t.by_model
          → AllValues
              (IsUnrated (length outcomes + n))
              (tally_outcomes q primary decisions outcomes t).by_model
      unfolding tally_outcomes tally_outcome
      tally_outcomes-IsUnrated n q primary decisions [] t small rated all =
          let same : 0 + n ≡ n = omega arith in rw same all
      tally_outcomes-IsUnrated n q primary decisions (o ∷ outcomes) t small (r, rated) all =
          let next : AllValues (IsUnrated (suc n))
              (tally_outcome q primary decisions o t).by_model =
            elim (Bool-cases (is_primary q primary o)) [
              | inl counts ↦ rw counts (
                  add_outcome-IsUnrated n decisions o (numeric_value o.value) t (omega arith) r all)
              | inr skipped ↦ rw skipped (more_outcomes n t.by_model all)
            ] in
          let shifted : suc (length outcomes) + n ≡ length outcomes + suc n = omega arith in
          rw shifted (
            tally_outcomes-IsUnrated (suc n) q primary decisions outcomes
              (tally_outcome q primary decisions o t) (omega arith) rated next)

      rate-HasProportion :
          (n k : ℕ) (model : ModelSummary F)
          → n < 2 ^ 53
          → model.outcomes ≡ k
          → IsUnrated n model
          → HasProportion (with_rate model)
      rate-HasProportion n zero model small same (within, bound, rate) =
          rw (same, rate) ((zero-Within rounded).0, rounded.constants.2)
      rate-HasProportion n (suc k) model small same (within, bound, rate) =
          let few : suc k < 2 ^ 53 = omega arith in
          let size = d.of_int (pos (suc k)) in
          let sized : Within (suc k) size =
            rounded.of_int-Within (suc k) (suc k) (omega arith) few in
          let size_pos = monotone.of_int_pos k few in
          let some_outcomes : nat_eq (suc k) 0 ≡ false = ground arith in
          let counted : Within (suc k) model.successes = rw (← same) within in
          rw (same, some_outcomes)
            (
              monotone.div_nonneg (suc k) model.successes size sized size_pos counted.0,
              monotone.div_below_one (suc k) model.successes size sized size_pos counted.0
                  counted.1,
            )

      with_rates-HasProportion :
          (n : ℕ) (models : Map (ModelSummary F))
          → n < 2 ^ 53
          → AllValues (IsUnrated n) models
          → AllValues HasProportion (with_rates models)
      unfolding with_rates
      with_rates-HasProportion n [] small all = tt
      with_rates-HasProportion n ((id, model) ∷ models) small (m, all) = (
        rate-HasProportion n model.outcomes model small refl m,
        with_rates-HasProportion n models small all,
      )

      -- When the outcomes are fewer than 2 ^ 53 and those with a value have one between 0 and 1, the
      -- success rate of every model in a summary is a number from 0 to 1, of models without outcomes too.
      pub summarize-HasProportion :
          (q : Query) (primary : String) (now : Time) (decisions : List (RouteDecision F))
          (outcomes : List (Outcome F))
          → length outcomes < 2 ^ 53
          → All IsRated outcomes
          → AllValues HasProportion (summarize q primary now decisions outcomes).by_model
      unfolding summarize
      summarize-HasProportion q primary now decisions outcomes small rated =
          let t = tally q decisions no_tally in
          let start : OutcomeTally F = record { by_model = t.by_model; primary_by_trace = [] } in
          with_rates-HasProportion (length outcomes + 0) _ (omega arith) (
            tally_outcomes-IsUnrated 0 q primary t.decisions outcomes start (omega arith) rated
              (tally-IsUnrated 0 q decisions no_tally tt))
