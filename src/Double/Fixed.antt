-- ===== src/Double/Fixed.antt =====
-- A concrete `Double`: fixed-point numbers with twelve decimals, and `none` for NaN. It shows that
-- the laws can be met, and runs the examples.
pub mod Ordered
pub mod Rounded
pub mod Monotone
use Prim.Native.Nat.{compare, Ordering}
use outcome_router.Base.{
  ℕ, zero, suc, ◌+◌, ◌-◌, ◌*◌, ◌/◌, ◌^◌, ◌≤◌, ◌<◌, ◌≡◌, refl, Bool, true, false, Option, none, some,
  if◌then◌else◌, ltb, leb, nat_eq, arith,
}
use outcome_router.Base.Int.{ℤ, pos, negsuc, pos_part, neg_part, sub_ℕ, ltb_ℤ, leb_ℤ, eq_ℤ}
use outcome_router.Double.{Double}

abbrev pub Fixed : Type 0
Fixed = Option ℤ

abbrev pub unit : ℕ
unit = 10 ^ 12

abbrev negate : ℕ → ℤ
negate zero = pos 0
negate (suc n) = negsuc n

-- Division that rounds towards zero, by a positive number.
abbrev truncate : ℤ → ℕ → ℤ
truncate (pos n) k = pos (n / k)
truncate (negsuc n) k = negate (suc n / k)

abbrev magnitude : ℤ → ℕ
magnitude (pos n) = n
magnitude (negsuc n) = suc n

abbrev scale : ℤ → ℕ → ℤ
scale (pos n) k = pos (n * k)
scale (negsuc n) k = negate (suc n * k)

abbrev times : ℤ → ℤ → ℤ
times a (pos m) = scale a m
times (pos n) (negsuc m) = negate (n * suc m)
times (negsuc n) (negsuc m) = pos (suc n * suc m)

abbrev quotient : ℤ → ℤ → Option ℤ
quotient a (pos zero) = none
quotient a (pos (suc m)) = some (truncate a (suc m))
quotient (pos n) (negsuc m) = some (negate (n / suc m))
quotient (negsuc n) (negsuc m) = some (pos (suc n / suc m))

abbrev lift_two : (ℤ → ℤ → Option ℤ) → Fixed → Fixed → Fixed
lift_two f (some a) (some b) = f a b
lift_two f _ _ = none

abbrev test_two : (ℤ → ℤ → Bool) → Fixed → Fixed → Bool
test_two f (some a) (some b) = f a b
test_two f _ _ = false

-- The integer square root, one binary digit at each step.
root_from : ℕ → ℕ → ℕ → ℕ
root_from zero n r = r
root_from (suc k) n r =
    let more = r + 2 ^ k in root_from k n (if leb (more * more) n then more else r)

unfoldable pub root : Fixed → Fixed
unfolding root_from
root none = none
root (some (pos n)) = some (pos (root_from 64 (n * unit) 0))
root (some (negsuc n)) = none

abbrev whole : Fixed → ℤ
whole none = pos 0
whole (some a) = truncate a unit

abbrev size_of : Fixed → Fixed
size_of none = none
size_of (some a) = some (pos (magnitude a))

instance abbrev pub fixed_double : Double Fixed
fixed_double = record {
  add = lift_two (λ a b. some (sub_ℕ (pos_part a + pos_part b) (neg_part a + neg_part b)));
  sub = lift_two (λ a b. some (sub_ℕ (pos_part a + neg_part b) (neg_part a + pos_part b)));
  mul = lift_two (λ a b. some (truncate (times a b) unit));
  div = lift_two (λ a b. quotient (scale a unit) b);
  lt = test_two ltb_ℤ;
  le = test_two leb_ℤ;
  eq = test_two eq_ℤ;
  max = lift_two (λ a b. some (if leb_ℤ a b then b else a));
  min = lift_two (λ a b. some (if leb_ℤ a b then a else b));
  abs = size_of;
  sqrt = root;
  of_int = λ a. some (scale a unit);
  to_int = whole;
  decimal = λ n k. some (pos (n * unit / 10 ^ k));
}

runs :
    (fixed_double.div (fixed_double.decimal 1 0) (fixed_double.decimal 4 0)
      ≡ fixed_double.decimal 25 2)
    × (fixed_double.sqrt (fixed_double.decimal 2 0) ≡ some (pos 1414213562373))
unfolding root
runs = (refl, refl)
