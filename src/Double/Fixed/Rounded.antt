-- ===== src/Double/Fixed/Rounded.antt =====
-- Fixed-point numbers round as the laws say.
use native.Mathlib.Nat.{mul-le-mul}
use outcome_router.Base.{ℕ, suc, ◌-◌, ◌*◌, ◌/◌, ◌≤◌, ◌≡◌, refl, some, none, arith}
use outcome_router.Base.Int.{pos, negsuc}
use outcome_router.Double.{◌⊘◌, ◌⊗◌, ◌⊖◌, zero_float, one_float}
use outcome_router.Double.Laws.{IsRounded, Within, ◌≼◌, ◌≺◌}
use outcome_router.Double.Fixed.{Fixed, fixed_double, unit}

div-le_scaled : (a c bound : ℕ) → unit ≤ c → a ≤ bound → a * unit / c ≤ bound
div-le_scaled a c bound h k = grind arith

Fixed-div : (n k : ℕ) (x : Fixed) → Within n x → Within n (x ⊘ fixed_double.of_int (pos (suc k)))
Fixed-div n k none h = ground arith
Fixed-div n k (some (negsuc a)) h = ground arith
Fixed-div n k (some (pos a)) h =
    let c : suc k * unit ≡ suc (suc k * unit - 1) = omega arith in
    let ha : a ≤ n * unit = ground arith in
    let small : a * unit / suc (suc k * unit - 1) ≤ n * unit =
      div-le_scaled a (suc (suc k * unit - 1)) (n * unit) (omega arith) ha in
    rw c (ground arith)

Fixed-mul : (n m : ℕ) (x y : Fixed) → Within n x → Within m y → Within (n * m) (x ⊗ y)
Fixed-mul n m none y h k = ground arith
Fixed-mul n m (some (negsuc a)) y h k = ground arith
Fixed-mul n m (some (pos a)) none h k = ground arith
Fixed-mul n m (some (pos a)) (some (negsuc b)) h k = ground arith
Fixed-mul n m (some (pos a)) (some (pos b)) h k =
    let ha : a ≤ n * unit = ground arith in
    let hb : b ≤ m * unit = ground arith in
    let bound : a * b / unit ≤ n * m * unit = omega (arith, mul-le-mul ha hb) in ground arith

Fixed-to_int :
    (n : ℕ) (x : Fixed) → Within n x → (m : ℕ) × (m ≤ n) × (fixed_double.to_int x ≡ pos m)
Fixed-to_int n none h = absurd (ground arith)
Fixed-to_int n (some (negsuc a)) h = absurd (ground arith)
Fixed-to_int n (some (pos a)) h = (a / unit, ground arith, refl)

Fixed-mul_pos : (x y : Fixed) → zero_float ≺ x → zero_float ≺ y → zero_float ≼ x ⊗ y
Fixed-mul_pos x y h k = ground arith

Fixed-sub_le : (x y : Fixed) → zero_float ≼ x → x ≼ one_float → zero_float ≼ y → x ⊖ y ≼ x
Fixed-sub_le x y h k l = ground arith

pub Fixed-IsRounded : IsRounded Fixed
Fixed-IsRounded = record {
  of_int-Within = λ n m h k. ground arith;
  decimal_of_int = λ n h. ground arith;
  div-Within = λ n k x hn hk h. Fixed-div n k x h;
  mul-Within = λ n m x y hn h k. Fixed-mul n m x y h k;
  to_int-Within = λ n x hn h. Fixed-to_int n x h;
  mul_pos = Fixed-mul_pos;
  sub_le = Fixed-sub_le;
  constants = (refl, refl, refl);
}
