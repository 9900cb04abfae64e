-- ===== src/Base/Entries.antt =====
-- What holds of every value of a map.
use Prim.Native.String.{String}
use Prim.Native.Nat.{suc, ◌≤◌}
use mathlib.Core.Logic.{inl, inr}
use mathlib.Core.List.{[], ◌∷◌}
use native.Mathlib.Omega.{arith}
use outcome_router.Base.Tests.{Bool-cases, get_or}
use outcome_router.Base.Text.{◌==◌}
use outcome_router.Base.Lists.{length}
use outcome_router.Base.Maps.{Map, lookup, insert}

module _ {ℓ} {V : Type ℓ} where
  abbrev pub AllValues {κ} : (V → Type κ) → Map V → Type κ
  AllValues P [] = Unit
  AllValues P ((key, value) ∷ rest) = P value × AllValues P rest

  pub insert-AllValues {κ} :
      (P : V → Type κ) (key : String) (value : V) (entries : Map V)
      → P value
      → AllValues P entries
      → AllValues P (insert key value entries)
  unfolding insert
  insert-AllValues P key value [] p all = (p, tt)
  insert-AllValues P key value ((at, old) ∷ rest) p (q, all) = elim (Bool-cases (at == key)) [
    | inl here ↦ rw here (p, all)
    | inr other ↦ rw other (q, insert-AllValues P key value rest p all)
  ]

  -- The value under a key, or a default.
  pub lookup-AllValues {κ} :
      (P : V → Type κ) (key : String) (default : V) (entries : Map V)
      → P default
      → AllValues P entries
      → P (get_or (lookup key entries) default)
  unfolding lookup
  lookup-AllValues P key default [] p all = p
  lookup-AllValues P key default ((at, value) ∷ rest) p (q, all) = elim (Bool-cases (at == key)) [
    | inl here ↦ rw here q
    | inr other ↦ rw other (lookup-AllValues P key default rest p all)
  ]

  pub length-insert :
      (key : String) (value : V) (entries : Map V)
      → length (insert key value entries) ≤ suc (length entries)
  unfolding insert
  length-insert key value [] = omega arith
  length-insert key value ((at, old) ∷ rest) = elim (Bool-cases (at == key)) [
    | inl here ↦ rw here (omega arith)
    | inr other ↦ let later = length-insert key value rest in rw other (omega arith)
  ]
