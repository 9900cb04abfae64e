-- ===== src/Routing/Predict/Bounds.antt =====
-- The ranges of a prediction.
use outcome_router.Base.{ℕ, Map, arith}
use outcome_router.Double.{Double, ◌⊖◌, ◌⊗◌, zero_float, one_float}
use outcome_router.Double.Laws.{IsOrdered, IsRounded, IsNumber, ◌≼◌, ◌≺◌}
use outcome_router.Domain.{Model, Policy}
use outcome_router.Routing.Feasible.{Request, Engine}
use outcome_router.Routing.Predict.{clamp, score_of, raw_success, predict}

module _ {F : Type 0} ⦃d : Double F⦄ (ordered : IsOrdered F) where
  open ordered use {
    number_of_le, number_of_lt, le_trans, le_total, lt-eq-not-le, max_bounds, max_least, min_bounds,
  }

  pub lt-le : (x y : F) → x ≺ y → x ≼ y
  lt-le x y h =
      let (nx, ny) = number_of_lt x y h in
      ground (arith, lt-eq-not-le x y nx ny, le_total x y nx ny)

  lt-lt_of_le : (x y z : F) → x ≺ y → y ≼ z → x ≺ z
  lt-lt_of_le x y z h k =
      let (nx, ny) = number_of_lt x y h in
      let nz = (number_of_le y z k).1 in
      ground (arith, lt-eq-not-le x y nx ny, lt-eq-not-le x z nx nz, le_trans y z x k)

  pub clamp_bounds :
      (value low high : F)
      → IsNumber value
      → low ≼ high
      → (low ≼ clamp value low high) × (clamp value low high ≼ high)
  unfolding clamp
  clamp_bounds value low high n h =
      let (nl, nh) = number_of_le low high h in
      let (to_high, to_value) = min_bounds high value nh n in
      let nm = (number_of_le _ _ to_high).0 in
      ((max_bounds low (d.min high value) nl nm).0, max_least low (d.min high value) high h to_high)

  -- Clamping does not lead past a value that lies in the range.
  pub clamp-le :
      (value low high top : F)
      → IsNumber value
      → IsNumber high
      → low ≼ top
      → value ≼ top
      → clamp value low high ≼ top
  unfolding clamp
  clamp-le value low high top n nh h k =
      max_least low (d.min high value) top h
        (le_trans (d.min high value) value top (min_bounds high value nh n).1 k)

  module _ (rounded : IsRounded F) where
    -- With an order and a rounding as `IsOrdered` and `IsRounded` say: if the score's
    -- uncertainty and its weighted sum are numbers and the confidence factor is positive,
    -- then success and lower bound are between 0 and 1, the uncertainty is between 0.005 and
    -- 0.5, and the lower bound does not pass the success.
    pub predict_bounds :
        (fold : ℕ → ℕ) (visit : Map F → Map F) (e : Engine F) (policy : Policy F) (model : Model F)
        (request : Request F)
        → IsNumber (raw_success visit (score_of policy model request) request.features)
        → IsNumber (score_of policy model request).uncertainty
        → zero_float ≺ policy.confidence_z
        → let p = predict fold visit e policy model request in
          (zero_float ≼ p.success)
          × (p.success ≼ one_float)
          × (d.decimal 5 3 ≼ p.uncertainty)
          × (p.uncertainty ≼ d.decimal 5 1)
          × (zero_float ≼ p.lower_bound)
          × (p.lower_bound ≼ p.success)
    unfolding predict
    predict_bounds fold visit e policy model request raw unsure z =
        let (tiny, range, unit) = rounded.constants in
        let score = score_of policy model request in
        let success = clamp (raw_success visit score request.features) zero_float one_float in
        let uncertainty = clamp score.uncertainty (d.decimal 5 3) (d.decimal 5 1) in
        let (s-low, s-high) =
          clamp_bounds (raw_success visit score request.features) zero_float one_float raw unit in
        let (u-low, u-high) =
          clamp_bounds score.uncertainty (d.decimal 5 3) (d.decimal 5 1) unsure range in
        let u-pos : zero_float ≺ uncertainty =
          lt-lt_of_le zero_float (d.decimal 5 3) uncertainty tiny u-low in
        let below =
          rounded.sub_le success (policy.confidence_z ⊗ uncertainty) s-low s-high
            (rounded.mul_pos policy.confidence_z uncertainty z u-pos) in
        let number = (number_of_le _ _ below).0 in
        (
          s-low,
          s-high,
          u-low,
          u-high,
          (clamp_bounds (success ⊖ policy.confidence_z ⊗ uncertainty) zero_float one_float number
              unit).0,
          clamp-le (success ⊖ policy.confidence_z ⊗ uncertainty) zero_float one_float success number
              (number_of_le _ _ unit).1 s-low below,
        )
