-- ===== src/Double.antt =====
-- Go's `float64`: the operations that the program uses, over any type of values. Go's `x > y` and
-- `x >= y` are `lt y x` and `le y x`, which agree with them on NaN too. The circled signs are the operations that round.
pub mod Laws
pub mod Monotone
pub mod Fixed
use outcome_router.Base.{ℕ, Bool, ◌||◌}
use outcome_router.Base.Int.{ℤ}

pub record Double (F : Type 0) : Type 0 where
  pub add : F → F → F
  pub sub : F → F → F
  pub mul : F → F → F
  pub div : F → F → F
  pub lt : F → F → Bool
  pub le : F → F → Bool
  pub eq : F → F → Bool
  -- `math.Max`, `math.Min`, `math.Abs`, `math.Sqrt`
  pub max : F → F → F
  pub min : F → F → F
  pub abs : F → F
  pub sqrt : F → F
  -- The conversions `float64(n)` and `int(x)`.
  pub of_int : ℤ → F
  pub to_int : F → ℤ
  -- The constant n / 10 ^ k, rounded.
  pub decimal : ℕ → ℕ → F

module _ {F : Type 0} ⦃d : Double F⦄ where
  abbrev pub zero_float : F
  zero_float = d.decimal 0 0

  abbrev pub one_float : F
  one_float = d.decimal 1 0

  infixl 65 ◌⊕◌ ◌⊖◌
  infixl 70 ◌⊗◌ ◌⊘◌
  abbrev pub ◌⊕◌ : F → F → F
  x ⊕ y = d.add x y

  abbrev pub ◌⊖◌ : F → F → F
  x ⊖ y = d.sub x y

  abbrev pub ◌⊗◌ : F → F → F
  x ⊗ y = d.mul x y

  abbrev pub ◌⊘◌ : F → F → F
  x ⊘ y = d.div x y

  abbrev pub ltf : F → F → Bool
  ltf x y = d.lt x y

  abbrev pub lef : F → F → Bool
  lef x y = d.le x y

  -- The test `x < low || x > high`.
  abbrev pub outside : F → F → F → Bool
  outside x low high = ltf x low || ltf high x
