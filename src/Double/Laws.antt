-- ===== src/Double/Laws.antt =====
-- What the proofs assume of `float64`: facts of IEEE 754 and of Go's `math` package. A NaN is a
-- value that is not `<=` itself, and the laws speak of it only where they say so.
use outcome_router.Base.{ℕ, suc, ◌*◌, ◌^◌, ◌≤◌, ◌<◌, ◌≡◌, ◌⊎◌, true, not}
use outcome_router.Base.Int.{pos}
use outcome_router.Double.{Double, zero_float, one_float, lef, ltf, ◌⊖◌, ◌⊗◌, ◌⊘◌}

infix 4 ◌≼◌ ◌≺◌
abbrev pub ◌≼◌ : {F : Type 0} ⦃d : Double F⦄ → F → F → Type 0
x ≼ y = lef x y ≡ true

abbrev pub ◌≺◌ : {F : Type 0} ⦃d : Double F⦄ → F → F → Type 0
x ≺ y = ltf x y ≡ true

abbrev pub IsNumber : {F : Type 0} ⦃d : Double F⦄ → F → Type 0
IsNumber x = x ≼ x

-- The order, total away from NaN.
pub record IsOrdered (F : Type 0) ⦃d : Double F⦄ : Type 0 where
  pub number_of_le : (x y : F) → x ≼ y → IsNumber x × IsNumber y
  pub number_of_lt : (x y : F) → x ≺ y → IsNumber x × IsNumber y
  pub le_trans : (x y z : F) → x ≼ y → y ≼ z → x ≼ z
  pub le_total : (x y : F) → IsNumber x → IsNumber y → (x ≼ y) ⊎ (y ≼ x)
  pub lt-eq-not-le : (x y : F) → IsNumber x → IsNumber y → ltf x y ≡ not (lef y x)
  -- `math.Max` and `math.Min` of two numbers are one of the two.
  pub max_bounds : (x y : F) → IsNumber x → IsNumber y → (x ≼ d.max x y) × (y ≼ d.max x y)
  pub max_least : (x y z : F) → x ≼ z → y ≼ z → d.max x y ≼ z
  pub min_bounds : (x y : F) → IsNumber x → IsNumber y → (d.min x y ≼ x) × (d.min x y ≼ y)

-- A value between 0 and the integer `n`.
abbrev pub Within : {F : Type 0} ⦃d : Double F⦄ → ℕ → F → Type 0
Within ⦃d⦄ n x = (zero_float ≼ x) × (x ≼ d.of_int (pos n))

-- Rounding keeps the order, and integers below 2 ^ 53 are exact.
pub record IsRounded (F : Type 0) ⦃d : Double F⦄ : Type 0 where
  pub of_int-Within : (n m : ℕ) → n ≤ m → m < 2 ^ 53 → Within m (d.of_int (pos n))
  pub decimal_of_int : (n : ℕ) → n < 2 ^ 53 → d.decimal n 0 ≡ d.of_int (pos n)
  pub div-Within :
      (n k : ℕ) (x : F)
      → n < 2 ^ 53
      → suc k < 2 ^ 53
      → Within n x
      → Within n (x ⊘ d.of_int (pos (suc k)))
  pub mul-Within :
      (n m : ℕ) (x y : F) → n * m < 2 ^ 53 → Within n x → Within m y → Within (n * m) (x ⊗ y)
  pub to_int-Within :
      (n : ℕ) (x : F) → n < 2 ^ 53 → Within n x → (m : ℕ) × (m ≤ n) × (d.to_int x ≡ pos m)
  pub mul_pos : (x y : F) → zero_float ≺ x → zero_float ≺ y → zero_float ≼ x ⊗ y
  pub sub_le : (x y : F) → zero_float ≼ x → x ≼ one_float → zero_float ≼ y → x ⊖ y ≼ x
  -- The constants of the program: 0, 0.005, 0.5 and 1.
  pub constants :
      (d.decimal 0 0 ≺ d.decimal 5 3)
      × (d.decimal 5 3 ≼ d.decimal 5 1)
      × (d.decimal 0 0 ≼ d.decimal 1 0)
