-- ===== src/Base/Text.antt =====
-- Texts: the library's test under a name of its own, concatenation, and the bytes of a text.
use Prim.Native.Nat.{ℕ, ◌+◌, ◌/◌, ◌%◌, ◌^◌}
use Prim.Native.Char.{code}
use Prim.Native.String.{String, ◌++◌ as str_append}
use mathlib.Core.Bool.{Bool, true, ◌&&◌}
use mathlib.Core.List.{List, [], ◌∷◌, ◌++◌}
use mathlib.Core.Bool.{false}
use mathlib.Core.Path.{◌≡◌, refl}
use mathlib.Core.Logic.{◌≢◌, ◌↔◌}
use native.Mathlib.Omega.{arith}
use text.Mathlib.TextEquality.{eq_iff}
use text.Mathlib.Text.{◌==◌ as str_eq}
use outcome_router.Base.Tests.{ltb, nat_eq, if◌then◌else◌}

infix 50 ◌==◌
abbrev pub ◌==◌ : String → String → Bool
s == t = str_eq s t

infixl 65 ◌<>◌
abbrev pub ◌<>◌ : String → String → String
s <> t = str_append s t

-- The code points of a text. `String` has its own `[]` and `∷`.
abbrev pub codes : String → List ℕ
codes String.[] = []
codes (String.◌∷◌ c s) = code c ∷ codes s

abbrev pub same_codes : List ℕ → List ℕ → Bool
same_codes [] [] = true
same_codes (a ∷ as') (b ∷ bs) = nat_eq a b && same_codes as' bs
same_codes _ _ = false

pub same_codes_iff : (as' bs : List ℕ) → (same_codes as' bs ≡ true) ↔ (as' ≡ bs)
same_codes_iff [] [] = (λ h. refl, λ h. refl)
same_codes_iff [] (b ∷ bs) = ground arith
same_codes_iff (a ∷ as') [] = ground arith
same_codes_iff (a ∷ as') (b ∷ bs) = ground (arith, same_codes_iff as' bs)

-- The UTF-8 encoding of one code point.
abbrev pub utf8 : ℕ → List ℕ
utf8 c =
    if ltb c 0x80
    then c ∷ []
    else if ltb c 0x800
    then (0xc0 + c / 2 ^ 6) ∷ (0x80 + c % 2 ^ 6) ∷ []
    else if ltb c 0x10000
    then (0xe0 + c / 2 ^ 12) ∷ (0x80 + c / 2 ^ 6 % 2 ^ 6) ∷ (0x80 + c % 2 ^ 6) ∷ []
    else (0xf0 + c / 2 ^ 18)
      ∷ (0x80 + c / 2 ^ 12 % 2 ^ 6)
      ∷ (0x80 + c / 2 ^ 6 % 2 ^ 6)
      ∷ (0x80 + c % 2 ^ 6)
      ∷ []

-- The bytes of a list of code points.
abbrev pub encode : List ℕ → List ℕ
encode [] = []
encode (c ∷ cs) = utf8 c ++ encode cs

-- Two literals that the test tells apart are different.
pub text_ne : (s t : String) → (s == t) ≡ false → s ≢ t
text_ne s t h e = ground (arith, eq_iff s t)
