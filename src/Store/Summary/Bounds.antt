-- ===== src/Store/Summary/Bounds.antt =====
-- The interval of `wilson` stays between 0 and 1.
use outcome_router.Base.{
  ℕ, zero, suc, ◌^◌, ◌≤◌, ◌<◌, ◌≡◌, false, not, ap, ◌∙◌, arith, nat_eq, some, Bool-cases, inl, inr,
}
use outcome_router.Base.Int.{pos}
use outcome_router.Double.{Double, zero_float, one_float, lef, ◌⊕◌, ◌⊖◌, ◌⊗◌, ◌⊘◌}
use outcome_router.Double.Laws.{IsOrdered, IsRounded, Within, ◌≼◌, ◌≺◌}
use outcome_router.Double.Monotone.{IsMonotone}
use outcome_router.Domain.{Interval, Outcome, numeric_value}
use outcome_router.Store.Summary.{wilson}

-- The estimate and the ends of the interval are proportions, and the ends are in order.
abbrev pub IsProportion : {F : Type 0} ⦃d : Double F⦄ → Interval F → Type 0
IsProportion i =
    ((zero_float ≼ i.estimate) × (i.estimate ≼ one_float))
    × (zero_float ≼ i.lower)
    × (i.lower ≼ i.upper)
    × (i.upper ≼ one_float)

-- An outcome whose value, when it has one, is between 0 and 1.
abbrev pub IsRated : {F : Type 0} ⦃d : Double F⦄ → Outcome F → Type 0
IsRated {F} o = (value : F) → numeric_value o.value ≡ some value → Within 1 value

pub zero-Within : {F : Type 0} ⦃d : Double F⦄ → IsRounded F → Within {F = F} 0 zero_float
zero-Within rounded =
    let number = (rounded.of_int-Within 0 0 (omega arith) (omega arith)).1 in
    rw (rounded.decimal_of_int 0 (omega arith)) (number, number)

module _ {F : Type 0} ⦃d : Double F⦄ (ordered : IsOrdered F) (rounded : IsRounded F)
    (monotone : IsMonotone F) where
  lt_le_trans : (x y z : F) → x ≺ y → y ≼ z → x ≺ z
  lt_le_trans x y z h k =
      let numbers = ordered.number_of_lt x y h in
      elim (Bool-cases (lef z x)) [
        | inl back ↦
            let apart = ordered.lt-eq-not-le x y numbers.0 numbers.1 in
            let reversed = ordered.le_trans y z x k back in absurd (ground arith)
        | inr apart ↦
            ordered.lt-eq-not-le x z numbers.0 (ordered.number_of_le y z k).1 ∙ ap not apart
      ]

  of_int_le : (n m : ℕ) → n ≤ m → m < 2 ^ 53 → ◌≼◌ {F = F} (d.of_int (pos n)) (d.of_int (pos m))
  of_int_le n m h small = (rounded.of_int-Within n m h small).1

  pub one-Within : Within {F = F} 1 one_float
  one-Within =
      rw (rounded.decimal_of_int 1 (omega arith))
        (rounded.of_int-Within 1 1 (omega arith) (omega arith))

  zero_lt_one : ◌≺◌ {F = F} zero_float one_float
  zero_lt_one = rw (rounded.decimal_of_int 1 (omega arith)) (monotone.of_int_pos 0 (omega arith))

  -- A number times a constant that is an integer from 1 on.
  times_grows : (m : ℕ) (x : F) → 1 ≤ m → m < 2 ^ 53 → zero_float ≼ x → x ≼ d.decimal m 0 ⊗ x
  times_grows m x h small k = rw (rounded.decimal_of_int m small) (
      monotone.mul_grows m (d.of_int (pos m)) x (rounded.of_int-Within m m (omega arith) small)
        (rw (rounded.decimal_of_int 1 (omega arith)) (of_int_le 1 m h small)) k)

  pub add_nonneg : (x y : F) → zero_float ≼ x → zero_float ≼ y → zero_float ≼ x ⊕ y
  add_nonneg x y h k = ordered.le_trans zero_float x _ h (monotone.add_grows x y h k)

  -- The ends of the interval, from its centre and its margin.
  ends :
      (center margin : F)
      → zero_float ≼ center
      → center ≼ one_float
      → zero_float ≼ margin
      → (zero_float ≼ d.max zero_float (center ⊖ margin))
        × (d.max zero_float (center ⊖ margin) ≼ d.min one_float (center ⊕ margin))
        × (d.min one_float (center ⊕ margin) ≼ one_float)
  ends center margin h l k =
      let below = rounded.sub_le center margin h l k in
      let above = monotone.add_grows center margin h k in
      let one = (ordered.number_of_le _ _ l).1 in
      let least =
        monotone.min_greatest _ one_float (center ⊕ margin) (ordered.le_trans _ _ _ below l)
          (ordered.le_trans _ _ _ below above) in
      let start =
        monotone.min_greatest zero_float one_float (center ⊕ margin) (ordered.le_trans _ _ _ h l)
          (ordered.le_trans _ _ _ h above) in
      (
        (ordered.max_bounds _ _ (ordered.number_of_le _ _ h).0
            (ordered.number_of_le _ _ below).0).0,
        ordered.max_least _ _ _ start least,
        (ordered.min_bounds _ _ one (ordered.number_of_le _ _ above).1).0,
      )

  -- The sum under the square root, of a proportion and the correction.
  radicand :
      (p a : F)
      → zero_float ≼ p
      → p ≼ one_float
      → zero_float ≼ a
      → zero_float ≼ p ⊗ (one_float ⊖ p) ⊕ a
  radicand p a h l k =
      let one = one-Within.1 in
      let rest = monotone.sub_nonneg 1 p one_float one-Within h l in
      let top = rounded.sub_le one_float p one-Within.0 (ordered.number_of_le _ _ l).1 h in
      let part =
        rounded.mul-Within 1 1 p (one_float ⊖ p) (omega arith) (h, ordered.le_trans _ _ _ l one)
          (rest, ordered.le_trans _ _ _ top one) in
      add_nonneg _ _ part.0 k

  -- A divisor of the form 1 + a.
  divisor : (a : F) → zero_float ≼ a → zero_float ≺ one_float ⊕ a
  divisor a h =
      lt_le_trans zero_float one_float _ zero_lt_one (monotone.add_grows one_float a one-Within.0 h)

  -- The centre, from a proportion, the correction a and its half b.
  centre :
      (p a b : F)
      → zero_float ≼ p
      → p ≼ one_float
      → zero_float ≼ b
      → b ≼ a
      → Within 4 a
      → (zero_float ≼ (p ⊕ b) ⊘ (one_float ⊕ a)) × ((p ⊕ b) ⊘ (one_float ⊕ a) ≼ one_float)
  centre p a b h l k m ha =
      let top = add_nonneg p b h k in
      let bounds = monotone.add-Within 1 4 one_float a (omega arith) one-Within ha in
      let positive = divisor a ha.0 in
      (
        monotone.div_nonneg 5 (p ⊕ b) (one_float ⊕ a) bounds positive top,
        monotone.div_below_one 5 (p ⊕ b) (one_float ⊕ a) bounds positive top
            (monotone.add_le p one_float b a h k l m),
      )

  -- Of some trials, no more successes than trials.
  wilson-suc :
      (successes : F) (k : ℕ) (z : F)
      → suc k < 2 ^ 53
      → Within (suc k) successes
      → zero_float ≺ z
      → Within 2 z
      → IsProportion (wilson successes (suc k) z)
  unfolding wilson
  wilson-suc successes k z small h positive hz =
      let n = suc k in
      let size : F = d.of_int (pos n) in
      let sized : Within n size = rounded.of_int-Within n n (omega arith) small in
      let size_pos = monotone.of_int_pos k small in
      let square = rounded.mul-Within 2 2 z z (omega arith) hz hz in
      let low = monotone.div_nonneg n successes size sized size_pos h.0 in
      let high = monotone.div_below_one n successes size sized size_pos h.0 h.1 in
      let half = times_grows 2 size (omega arith) (omega arith) sized.0 in
      let quarter = times_grows 4 size (omega arith) (omega arith) sized.0 in
      let a = rounded.div-Within 4 k (z ⊗ z) (omega arith) small square in
      let b = monotone.div_anti 4 (z ⊗ z) size (d.decimal 2 0 ⊗ size) square size_pos half in
      let c = monotone.div_anti 4 (z ⊗ z) size (d.decimal 4 0 ⊗ size) square size_pos quarter in
      let middle = centre (successes ⊘ size) (z ⊗ z ⊘ size) _ low high b.0 b.1 a in
      let inner = radicand (successes ⊘ size) (z ⊗ z ⊘ (d.decimal 4 0 ⊗ size)) low high c.0 in
      let root = monotone.sqrt_nonneg _ (monotone.div_nonneg n _ size sized size_pos inner) in
      let margin =
        monotone.div_nonneg 5 _ (one_float ⊕ z ⊗ z ⊘ size)
          (monotone.add-Within 1 4 one_float _ (omega arith) one-Within a) (divisor _ a.0)
          (monotone.mul_nonneg 2 z _ hz positive root) in
      let interval = ends _ _ middle.0 middle.1 margin in
      let some_trials : nat_eq (suc k) 0 ≡ false = ground arith in
      rw some_trials ((low, high), interval.0, interval.1, interval.2)

  -- Of at least as many trials as successes, and of no trials, the estimate of `wilson` and the ends of
  -- its interval are numbers from 0 to 1 and the lower end is not above the upper, for a positive z up
  -- to 2 and fewer trials than 2 ^ 53.
  pub wilson-IsProportion :
      (successes : F) (n : ℕ) (z : F)
      → n < 2 ^ 53
      → Within n successes
      → zero_float ≺ z
      → Within 2 z
      → IsProportion (wilson successes n z)
  unfolding wilson
  wilson-IsProportion successes zero z small h positive hz =
      let one = rounded.constants.2 in
      let zero_number = (ordered.number_of_le _ _ one).0 in
      ((zero_number, one), zero_number, zero_number, one)
  wilson-IsProportion successes (suc k) z small h positive hz =
      wilson-suc successes k z small h positive hz
