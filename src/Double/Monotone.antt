-- ===== src/Double/Monotone.antt =====
-- More of what the proofs assume of `float64`: the operations keep the order of numbers that are not
-- negative. Each law is one of IEEE 754, in which a rounded result is monotone in the exact one.
use outcome_router.Base.{ℕ, suc, ◌+◌, ◌^◌, ◌<◌}
use outcome_router.Base.Int.{pos}
use outcome_router.Double.{Double, zero_float, one_float, ◌⊕◌, ◌⊖◌, ◌⊗◌, ◌⊘◌}
use outcome_router.Double.Laws.{◌≼◌, ◌≺◌, Within}

pub record IsMonotone (F : Type 0) ⦃d : Double F⦄ : Type 0 where
  pub add_le : (x x' y y' : F) → zero_float ≼ x → zero_float ≼ y → x ≼ x' → y ≼ y' → x ⊕ y ≼ x' ⊕ y'
  pub add_grows : (x y : F) → zero_float ≼ x → zero_float ≼ y → x ≼ x ⊕ y
  pub add-Within :
      (n m : ℕ) (x y : F) → n + m < 2 ^ 53 → Within n x → Within m y → Within (n + m) (x ⊕ y)
  pub sub_nonneg : (n : ℕ) (x y : F) → Within n y → zero_float ≼ x → x ≼ y → zero_float ≼ y ⊖ x
  pub sub_below : (n : ℕ) (x y : F) → Within n x → zero_float ≼ y → x ⊖ y ≼ x
  pub mul_grows : (n : ℕ) (x y : F) → Within n x → one_float ≼ x → zero_float ≼ y → y ≼ x ⊗ y
  pub mul_nonneg :
      (n : ℕ) (x y : F) → Within n x → zero_float ≺ x → zero_float ≼ y → zero_float ≼ x ⊗ y
  pub div_nonneg :
      (n : ℕ) (x y : F) → Within n y → zero_float ≺ y → zero_float ≼ x → zero_float ≼ x ⊘ y
  pub div_below_one :
      (n : ℕ) (x y : F) → Within n y → zero_float ≺ y → zero_float ≼ x → x ≼ y → x ⊘ y ≼ one_float
  -- A larger divisor, which may be infinite, gives a quotient that is not negative and not larger.
  pub div_anti :
      (n : ℕ) (x y y' : F)
      → Within n x
      → zero_float ≺ y
      → y ≼ y'
      → (zero_float ≼ x ⊘ y') × (x ⊘ y' ≼ x ⊘ y)
  pub sqrt_nonneg : (x : F) → zero_float ≼ x → zero_float ≼ d.sqrt x
  pub of_int_pos : (n : ℕ) → suc n < 2 ^ 53 → zero_float ≺ d.of_int (pos (suc n))
  pub min_greatest : (x y z : F) → x ≼ y → x ≼ z → x ≼ d.min y z
