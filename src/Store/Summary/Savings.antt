-- ===== src/Store/Summary/Savings.antt =====
-- The savings of a summary, when no cost is negative.
use outcome_router.Base.{
  ℕ, ◌+◌, ◌*◌, ◌^◌, ◌≤◌, ◌<◌, String, List, [], ◌∷◌, All, length, if◌then◌else◌, arith, Bool-cases,
  inl, inr,
}
use outcome_router.Base.Int.{pos}
use outcome_router.Double.{Double, zero_float, ltf, ◌⊖◌, ◌⊘◌, ◌⊗◌}
use outcome_router.Double.Laws.{IsOrdered, IsRounded, Within, ◌≼◌, ◌≺◌}
use outcome_router.Double.Monotone.{IsMonotone}
use outcome_router.Domain.{Time, RouteDecision, Outcome, AuditSummary}
use outcome_router.Store.Tally.{
  Query, Tally, tally, tally_one, no_tally, cost_of, is_counted, is_shadow_decision,
}
use outcome_router.Store.Summary.{summarize}
use outcome_router.Store.Summary.Bounds.{one-Within, zero-Within, add_nonneg}

-- A decision whose costs are not negative, and that of the incumbent at most k.
abbrev pub IsCosted : {F : Type 0} ⦃d : Double F⦄ → ℕ → RouteDecision F → Type 0
IsCosted k decision =
    (zero_float ≼ decision.estimated_cost_usd)
    × (zero_float ≼ decision.actual_cost_usd)
    × Within k decision.incumbent_estimated_cost_usd

-- Savings that are not negative and not above the incumbent's cost, and at most 100 percent.
abbrev pub AreSavings : {F : Type 0} ⦃d : Double F⦄ → AuditSummary F → Type 0
AreSavings summary =
    (zero_float ≼ summary.verified_gross_savings_usd)
    × (summary.verified_gross_savings_usd ≼ summary.incumbent_cost_usd)
    × Within 100 summary.savings_percent

module _ {F : Type 0} ⦃d : Double F⦄ (ordered : IsOrdered F) (rounded : IsRounded F)
    (monotone : IsMonotone F) where
  -- The sums so far, of which that of the incumbent's costs is at most n.
  abbrev AreSums : ℕ → Tally F → Type 0
  AreSums n t =
      (zero_float ≼ t.actual_cost_usd) × ((m : ℕ) × (m ≤ n) × Within m t.incumbent_cost_usd)

  cost_nonneg :
      (k : ℕ) (decision : RouteDecision F) → IsCosted k decision → zero_float ≼ cost_of decision
  cost_nonneg k decision (estimated, actual, incumbent) = ground arith

  tally_one-AreSums :
      (k n : ℕ) (q : Query) (decision : RouteDecision F) (t : Tally F)
      → n + k < 2 ^ 53
      → IsCosted k decision
      → AreSums n t
      → AreSums (n + k) (tally_one q decision t)
  unfolding tally_one
  tally_one-AreSums k n q decision t small costed (actual, (m, few, incumbent)) =
      elim (Bool-cases (is_counted q decision)) [
        | inr skipped ↦ rw skipped (actual, (m, omega arith, incumbent))
        | inl counted ↦ elim (Bool-cases (is_shadow_decision decision)) [
          | inl shadow ↦ rw (counted, shadow) (actual, (m, omega arith, incumbent))
          | inr request ↦
              rw (counted, request)
                (
                  add_nonneg ordered rounded monotone _ _ actual (cost_nonneg k decision costed),
                  (
                    m + k,
                    omega arith,
                    monotone.add-Within m k _ _ (omega arith) incumbent costed.2,
                  ),
                )
        ]
      ]

  tally-AreSums :
      (k n : ℕ) (q : Query) (decisions : List (RouteDecision F)) (t : Tally F)
      → length decisions * k + n < 2 ^ 53
      → All (IsCosted k) decisions
      → AreSums n t
      → AreSums (length decisions * k + n) (tally q decisions t)
  unfolding tally
  tally-AreSums k n q [] t small costed (actual, (m, few, incumbent)) =
      (actual, (m, omega arith, incumbent))
  tally-AreSums k n q (decision ∷ decisions) t small (c, costed) sums =
      let next = tally_one-AreSums k n q decision t (omega arith) c sums in
      let (actual, (m, few, incumbent)) =
        tally-AreSums k (n + k) q decisions (tally_one q decision t) (omega arith) costed next in
      (actual, (m, omega arith, incumbent))

  saved-Within :
      (n : ℕ) (actual incumbent : F)
      → zero_float ≼ actual
      → Within n incumbent
      → (zero_float ≼ d.max zero_float (incumbent ⊖ actual))
        × (d.max zero_float (incumbent ⊖ actual) ≼ incumbent)
  saved-Within n actual incumbent h k =
      let below = monotone.sub_below n incumbent actual k h in
      let zero = (ordered.number_of_le _ _ h).0 in
      (
        (ordered.max_bounds _ _ zero (ordered.number_of_le _ _ below).0).0,
        ordered.max_least _ _ _ k.0 below,
      )

  percent-Within :
      (n : ℕ) (part whole : F)
      → zero_float ≼ part
      → part ≼ whole
      → Within n whole
      → zero_float ≺ whole
      → Within 100 (part ⊘ whole ⊗ d.decimal 100 0)
  percent-Within n part whole h l k positive =
      let low = monotone.div_nonneg n part whole k positive h in
      let high = monotone.div_below_one n part whole k positive h l in
      let one = one-Within ordered rounded monotone in
      let hundred = rounded.of_int-Within 100 100 (omega arith) (omega arith) in
      rw (rounded.decimal_of_int 100 (omega arith)) (
        rounded.mul-Within 1 100 (part ⊘ whole) (d.of_int (pos 100)) (omega arith)
          (low, ordered.le_trans _ _ _ high one.1) hundred)

  share-Within :
      (n : ℕ) (part whole : F)
      → zero_float ≼ part
      → part ≼ whole
      → Within n whole
      → Within 100 (if ltf zero_float whole then part ⊘ whole ⊗ d.decimal 100 0 else zero_float)
  share-Within n part whole h l k = elim (Bool-cases (ltf zero_float whole)) [
    | inl positive ↦ rw positive (percent-Within n part whole h l k positive)
    | inr nothing ↦
        rw nothing
          ((zero-Within rounded).0, (rounded.of_int-Within 100 100 (omega arith) (omega arith)).0)
  ]

  -- When no decision has a negative cost, the incumbent's is at most k in each, and k times the
  -- decisions are fewer than 2 ^ 53, the savings of a summary are not negative and not more than the
  -- incumbents would have cost, and the percentage is from 0 to 100.
  pub summarize-AreSavings :
      (k : ℕ) (q : Query) (primary : String) (now : Time) (decisions : List (RouteDecision F))
      (outcomes : List (Outcome F))
      → length decisions * k < 2 ^ 53
      → All (IsCosted k) decisions
      → AreSavings (summarize q primary now decisions outcomes)
  unfolding summarize
  summarize-AreSavings k q primary now decisions outcomes small costed =
      let zero = zero-Within rounded in
      let (actual, (m, few, incumbent)) =
        tally-AreSums k 0 q decisions no_tally (omega arith) costed
          (zero.0, (0, omega arith, zero)) in
      let t = tally q decisions no_tally in
      let (low, high) = saved-Within m t.actual_cost_usd t.incumbent_cost_usd actual incumbent in
      (low, high, share-Within m _ t.incumbent_cost_usd low high incumbent)
