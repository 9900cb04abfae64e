-- ===== src/Double/Fixed/Monotone.antt =====
-- Fixed-point numbers keep the order as the laws say.
use outcome_router.Base.{ℕ, zero, suc, ◌+◌, ◌*◌, ◌/◌, ◌≤◌, some, none, arith}
use outcome_router.Base.Int.{pos, negsuc}
use outcome_router.Double.{◌⊕◌, ◌⊘◌, ◌⊗◌, ◌⊖◌, zero_float, one_float}
use outcome_router.Double.Laws.{Within, ◌≼◌, ◌≺◌}
use outcome_router.Double.Monotone.{IsMonotone}
use outcome_router.Double.Fixed.{Fixed, fixed_double, unit, root}

Fixed-add_le :
    (x x' y y' : Fixed) → zero_float ≼ x → zero_float ≼ y → x ≼ x' → y ≼ y' → x ⊕ y ≼ x' ⊕ y'
Fixed-add_le x x' y y' hx hy h k = ground arith

Fixed-add_grows : (x y : Fixed) → zero_float ≼ x → zero_float ≼ y → x ≼ x ⊕ y
Fixed-add_grows x y h k = ground arith

Fixed-add : (n m : ℕ) (x y : Fixed) → Within n x → Within m y → Within (n + m) (x ⊕ y)
Fixed-add n m x y h k = ground arith

Fixed-sub_nonneg : (n : ℕ) (x y : Fixed) → Within n y → zero_float ≼ x → x ≼ y → zero_float ≼ y ⊖ x
Fixed-sub_nonneg n x y h k l = ground arith

Fixed-sub_below : (n : ℕ) (x y : Fixed) → Within n x → zero_float ≼ y → x ⊖ y ≼ x
Fixed-sub_below n x y h k = ground arith

Fixed-mul_nonneg : (x y : Fixed) → zero_float ≺ x → zero_float ≼ y → zero_float ≼ x ⊗ y
Fixed-mul_nonneg x y h k = ground arith

Fixed-div_nonneg : (x y : Fixed) → zero_float ≼ x → zero_float ≺ y → zero_float ≼ x ⊘ y
Fixed-div_nonneg x y h k = ground arith

Fixed-min : (x y z : Fixed) → x ≼ y → x ≼ z → x ≼ fixed_double.min y z
Fixed-min x y z h k = ground arith

zero_le_pos : (n : ℕ) → zero_float ≼ some (pos n)
zero_le_pos n = ground arith

Fixed-sqrt : (x : Fixed) → zero_float ≼ x → zero_float ≼ fixed_double.sqrt x
unfolding root
Fixed-sqrt none h = absurd (ground arith)
Fixed-sqrt (some (pos n)) h = zero_le_pos _
Fixed-sqrt (some (negsuc n)) h = absurd (ground arith)

scaled_grows : (a b : ℕ) → unit ≤ a → b ≤ a * b / unit
scaled_grows a b h = grind arith

Fixed-mul_grows : (x y : Fixed) → one_float ≼ x → zero_float ≼ y → y ≼ x ⊗ y
Fixed-mul_grows (some (pos a)) (some (pos b)) h k =
    let ha : unit ≤ a = ground arith in let grown = scaled_grows a b ha in ground arith
Fixed-mul_grows none y h k = absurd (ground arith)
Fixed-mul_grows (some (negsuc a)) y h k = absurd (ground arith)
Fixed-mul_grows (some (pos a)) none h k = absurd (ground arith)
Fixed-mul_grows (some (pos a)) (some (negsuc b)) h k = absurd (ground arith)

quotient_below : (a b : ℕ) → a ≤ suc b → a * unit / suc b ≤ unit
quotient_below a b h = grind arith

quotient_anti : (a b c : ℕ) → b ≤ c → a / suc c ≤ a / suc b
quotient_anti a b c h = grind arith

Fixed-div_below : (x y : Fixed) → zero_float ≺ y → zero_float ≼ x → x ≼ y → x ⊘ y ≼ one_float
Fixed-div_below (some (pos a)) (some (pos (suc b))) h k l =
    let below : a * unit / suc b ≤ unit = quotient_below a b (ground arith) in ground arith
Fixed-div_below none y h k l = absurd (ground arith)
Fixed-div_below (some (negsuc a)) y h k l = absurd (ground arith)
Fixed-div_below (some (pos a)) none h k l = absurd (ground arith)
Fixed-div_below (some (pos a)) (some (pos zero)) h k l = absurd (ground arith)
Fixed-div_below (some (pos a)) (some (negsuc b)) h k l = absurd (ground arith)

Fixed-div_anti :
    (x y y' : Fixed)
    → zero_float ≼ x
    → zero_float ≺ y
    → y ≼ y'
    → (zero_float ≼ x ⊘ y') × (x ⊘ y' ≼ x ⊘ y)
Fixed-div_anti (some (pos a)) (some (pos (suc b))) (some (pos (suc c))) h k l =
    let below = quotient_anti (a * unit) b c (ground arith) in (zero_le_pos _, ground arith)
Fixed-div_anti none y y' h k l = absurd (ground arith)
Fixed-div_anti (some (negsuc a)) y y' h k l = absurd (ground arith)
Fixed-div_anti (some (pos a)) none y' h k l = absurd (ground arith)
Fixed-div_anti (some (pos a)) (some (pos zero)) y' h k l = absurd (ground arith)
Fixed-div_anti (some (pos a)) (some (negsuc b)) y' h k l = absurd (ground arith)
Fixed-div_anti (some (pos a)) (some (pos (suc b))) none h k l = absurd (ground arith)
Fixed-div_anti (some (pos a)) (some (pos (suc b))) (some (pos zero)) h k l = absurd (ground arith)
Fixed-div_anti (some (pos a)) (some (pos (suc b))) (some (negsuc c)) h k l = absurd (ground arith)

pub Fixed-IsMonotone : IsMonotone Fixed
Fixed-IsMonotone = record {
  add_le = Fixed-add_le;
  add_grows = Fixed-add_grows;
  add-Within = λ n m x y hn h k. Fixed-add n m x y h k;
  sub_nonneg = Fixed-sub_nonneg;
  sub_below = Fixed-sub_below;
  mul_grows = λ n x y h. Fixed-mul_grows x y;
  mul_nonneg = λ n x y h. Fixed-mul_nonneg x y;
  div_nonneg = λ n x y h k l. Fixed-div_nonneg x y l k;
  div_below_one = λ n x y h. Fixed-div_below x y;
  div_anti = λ n x y y' h. Fixed-div_anti x y y' h.0;
  sqrt_nonneg = Fixed-sqrt;
  of_int_pos = λ n h. ground arith;
  min_greatest = Fixed-min;
}
