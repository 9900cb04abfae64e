-- ===== src/Base/Distinct.antt =====
-- Membership in a list of texts as a test, and lists in which no text stands twice.
use Prim.Native.String.{String}
use mathlib.Core.Bool.{Bool, true, false, ◌||◌}
use mathlib.Core.List.{List, [], ◌∷◌}
use mathlib.Core.Path.{◌≡◌}
use native.Mathlib.Omega.{arith}
use text.Mathlib.TextEquality.{eq_iff}
use outcome_router.Base.Lists.{In}
use outcome_router.Base.Text.{◌==◌}

abbrev pub contains : List String → String → Bool
contains [] value = false
contains (x ∷ xs) value = x == value || contains xs value

pub contains-In : (xs : List String) (v : String) → contains xs v ≡ true → In v xs
contains-In [] v h = cc
contains-In (x ∷ xs) v h = ground (arith, contains-In xs v, eq_iff x v)

pub In-contains : (xs : List String) (v : String) → In v xs → contains xs v ≡ true
In-contains [] v h = absurd h
In-contains (x ∷ xs) v h = ground (arith, In-contains xs v, eq_iff x v)

-- No text stands twice in the list or among those seen before.
abbrev pub IsFresh : List String → List String → Type 0
IsFresh seen [] = Unit
IsFresh seen (x ∷ xs) = (contains seen x ≡ false) × IsFresh (x ∷ seen) xs

abbrev pub AreDistinct : List String → Type 0
AreDistinct xs = IsFresh [] xs
