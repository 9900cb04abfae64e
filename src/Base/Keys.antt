-- ===== src/Base/Keys.antt =====
-- The keys of a map: no key stands twice in a map that `insert` builds.
use Prim.Native.String.{String}
use mathlib.Core.Path.{◌≡◌, refl}
use mathlib.Core.Logic.{inl, inr}
use mathlib.Core.Bool.{false}
use mathlib.Core.List.{List, [], ◌∷◌}
use native.Mathlib.Omega.{arith}
use text.Mathlib.TextEquality.{eq_iff}
use outcome_router.Base.Tests.{is_some, Bool-cases}
use outcome_router.Base.Text.{◌==◌}
use outcome_router.Base.Distinct.{contains}
use outcome_router.Base.Maps.{Map, lookup, insert, lookup-insert}

-- No text stands twice.
abbrev pub NoneTwice : List String → Type 0
NoneTwice [] = Unit
NoneTwice (x ∷ xs) = (contains xs x ≡ false) × NoneTwice xs

module _ {ℓ} {V : Type ℓ} where
  abbrev pub keys : Map V → List String
  keys [] = []
  keys ((key, value) ∷ rest) = key ∷ keys rest

  pub contains-keys :
      (entries : Map V) (key : String) → contains (keys entries) key ≡ is_some (lookup key entries)
  unfolding lookup
  contains-keys [] key = refl
  contains-keys ((at, value) ∷ rest) key = ground (arith, contains-keys rest key)

  pub insert-NoneTwice :
      (key : String) (value : V) (entries : Map V)
      → NoneTwice (keys entries)
      → NoneTwice (keys (insert key value entries))
  unfolding insert
  insert-NoneTwice key value [] once = (refl, tt)
  insert-NoneTwice key value ((at, old) ∷ rest) (fresh, once) = elim (Bool-cases (at == key)) [
    | inl here ↦ rw here ((let e : at ≡ key = (eq_iff at key).0 here in rw (← e) fresh), once)
    | inr later ↦ rw later (
      (rw (contains-keys (insert key value rest) at, lookup-insert key at value rest)
          (ground (arith, eq_iff at key, eq_iff key at, contains-keys rest at))),
      insert-NoneTwice key value rest once,
    )
  ]
