-- ===== src/Routing/Select.antt =====
-- internal/routing/engine.go: the candidates that clear the quality floor, their order and the
-- choice among them.
pub mod Members
pub mod Sort
pub mod Cheapest
use Prim.Native.Nat.{suc, ◌%◌}
use mathlib.Core.List.{foldl, reverse}
use outcome_router.Base.{
  ℕ, String, Bool, false, not, ◌&&◌, ◌||◌, Option, none, some, List, [], ◌∷◌, Map, lookup,
  if◌then◌else◌, nat_eq, get_or, get_elem?, length, ◌<>◌,
}
use outcome_router.Base.Int.{ℤ, pos, negsuc, ltb_ℤ}
use outcome_router.Double.{Double, ◌⊕◌, ◌⊖◌, ◌⊗◌, ◌⊘◌, ltf, zero_float}
use outcome_router.Domain.{Policy, Prediction, no_prediction, is_low}
use outcome_router.Routing.Feasible.{Request}
use outcome_router.Routing.Hash.{hash_percent}

-- `sort.Slice` on a slice of at most twelve entries, where Go's sort is this insertion sort: each
-- entry moves to the left while it is `less` than its neighbour. The sorted part is kept reversed.
module _ {ℓ} {A : Type ℓ} (less : A → A → Bool) where
  unfoldable pub sink : A → List A → List A
  sink x [] = x ∷ []
  sink x (y ∷ ys) = if less x y then y ∷ sink x ys else x ∷ y ∷ ys

  abbrev pub sink_into : List A → A → List A
  sink_into sorted x = sink x sorted

  unfoldable pub sort_slice : List A → List A
  unfolding sink
  sort_slice xs = reverse (foldl sink_into [] xs)

-- Go's `%` takes the sign of the dividend. A negative index panics.
unfoldable pub go_index : ℤ → ℕ → Option ℕ
go_index (pos n) len = some (n % len)
go_index (negsuc n) len = if nat_eq (suc n % len) 0 then some 0 else none

-- The index of the explored candidate among `len`.
unfoldable pub arm_index : (F : Type 0) ⦃d : Double F⦄ → String → ℕ → Option ℕ
unfolding go_index
arm_index F ⦃d⦄ trace_id len =
    go_index (d.to_int (hash_percent (trace_id <> "|arm") ⊘ d.decimal 100 0 ⊗ d.of_int (pos len)))
      len

module _ {F : Type 0} ⦃d : Double F⦄ where
  -- The entry that Go reads from the map of predictions, zero where there is none.
  abbrev pub prediction_of : Map (Prediction F) → String → Prediction F
  prediction_of predictions model_id = get_or (lookup model_id predictions) no_prediction

  abbrev pub epsilon : F
  epsilon = d.decimal 1 12

  -- The two tests of the loop that `continue` on.
  unfoldable pub qualifies : Policy F → F → Prediction F → Bool
  qualifies policy floor p =
      if not p.eligible || ltb_ℤ p.samples policy.minimum_samples
      then false
      else not (ltf (p.lower_bound ⊕ epsilon) floor)

  unfoldable pub candidates_from :
      Policy F → F → Map (Prediction F) → List String → List (Prediction F)
  candidates_from policy floor predictions [] = []
  candidates_from policy floor predictions (model_id ∷ ids) =
      let p = prediction_of predictions model_id in
      let rest = candidates_from policy floor predictions ids in
      if qualifies policy floor p then p ∷ rest else rest

  -- The comparison of the sort.
  unfoldable pub cheaper : Prediction F → Prediction F → Bool
  cheaper a b =
      if ltf (d.abs (a.estimated_cost_usd ⊖ b.estimated_cost_usd)) epsilon
      then ltf b.lower_bound a.lower_bound
      else ltf a.estimated_cost_usd b.estimated_cost_usd

  abbrev at_index : List (Prediction F) → Option ℕ → Option (Prediction F)
  at_index candidates none = none
  at_index candidates (some i) = get_elem? candidates i

  -- The choice among the sorted candidates, with the bucket: `none` is a panic.
  unfoldable pub choose :
      Policy F → Request F → String → List (Prediction F) → Option (String × Prediction F)
  choose policy request trace_id [] = none
  choose policy request trace_id (first ∷ rest) =
      let explored = at_index (first ∷ rest) (arm_index F trace_id (length (first ∷ rest))) in
      if is_low request.metadata.risk_class && ltf zero_float policy.exploration_percent
      then (if ltf (hash_percent (trace_id <> "|explore|" <> policy.version))
            policy.exploration_percent
          then elim explored [ none ↦ none | some p ↦ some ("exploration", p) ]
          else some ("treatment", first))
      else some ("treatment", first)
