-- ===== src/Base/Maps.antt =====
-- Go maps with text keys, as association lists in which a key stands at most once when the map is
-- built by `insert`. What depends on the order of iteration says so where it is modelled.
use Prim.Native.String.{String}
use mathlib.Core.Path.{◌≡◌, refl}
use mathlib.Core.Bool.{Bool}
use mathlib.Core.List.{List, [], ◌∷◌}
use mathlib.Core.Option.{Option, none, some}
use native.Mathlib.Omega.{arith}
use text.Mathlib.TextEquality.{eq_iff}
use text.Mathlib.TextPositions.{eq_refl}
use outcome_router.Base.Tests.{if◌then◌else◌, is_some}
use outcome_router.Base.Text.{◌==◌}

abbrev pub Map {ℓ} : Type ℓ → Type ℓ
Map V = List (String × V)

module _ {ℓ} {V : Type ℓ} where
  -- `m[key]`, with Go's second result.
  unfoldable pub lookup : String → Map V → Option V
  lookup key [] = none
  lookup key ((at, value) ∷ rest) = if at == key then some value else lookup key rest

  -- `m[key] = value`, which keeps the place of a key that is there.
  unfoldable pub insert : String → V → Map V → Map V
  insert key value [] = (key, value) ∷ []
  insert key value ((at, old) ∷ rest) =
      let later = insert key value rest in
      if at == key then (key, value) ∷ rest else (at, old) ∷ later

  -- The values, in some order: Go iterates in an order of its own.
  unfoldable pub values : Map V → List V
  values [] = []
  values ((key, value) ∷ rest) = value ∷ values rest

  unfoldable pub has_key : String → Map V → Bool
  has_key key m = is_some (lookup key m)

  pub lookup-insert :
      (key other : String) (value : V) (entries : Map V)
      → lookup other (insert key value entries)
        ≡ (if key == other then some value else lookup other entries)
  unfolding lookup insert
  lookup-insert key other value [] = refl
  lookup-insert key other value ((at, old) ∷ rest) =
      let inside = lookup-insert key other value rest in
      ground (arith, eq_iff at other, eq_iff at key, eq_iff key other)

  pub lookup-insert_self :
      (key : String) (value : V) (entries : Map V)
      → lookup key (insert key value entries) ≡ some value
  lookup-insert_self key value entries = rw (lookup-insert, eq_refl) refl

  -- Go's `delete`.
  unfoldable pub remove : String → Map V → Map V
  remove k [] = []
  remove k ((j, v) ∷ m) = let rest = remove k m in if j == k then rest else (j, v) ∷ rest

  pub lookup-remove :
      (k j : String) (m : Map V) → lookup j (remove k m) ≡ (if k == j then none else lookup j m)
  unfolding lookup remove
  lookup-remove k j [] = ground arith
  lookup-remove k j ((i, v) ∷ m) =
      ground (arith, eq_iff k j, eq_iff i k, eq_iff i j, lookup-remove k j m)
