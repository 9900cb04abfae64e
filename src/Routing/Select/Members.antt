-- ===== src/Routing/Select/Members.antt =====
-- Where the candidates and the choice come from.
use mathlib.Core.List.{foldl, reverse, reverse-cons}
use mathlib.Core.Option.{some-injective}
use outcome_router.Base.{
  ℕ, zero, suc, sym, get_elem?, length, String, ◌≡◌, refl, ◌⊎◌, inl, inr, Bool, true, Option, none,
  some, List, [], ◌∷◌, ◌++◌, Map, arith, Bool-cases, In,
}
use outcome_router.Double.{Double}
use outcome_router.Domain.{Policy, Prediction}
use outcome_router.Routing.Feasible.{Request}
use outcome_router.Routing.Select.{
  sink, sink_into, sort_slice, prediction_of, qualifies, candidates_from, choose, arm_index,
  at_index,
}

In-append : {A : Type 0} (xs ys : List A) (a : A) → In a (xs ++ ys) → In a xs ⊎ In a ys
In-append [] ys a h = inr h
In-append (x ∷ xs) ys a (inl e) = inl (inl e)
In-append (x ∷ xs) ys a (inr h) = elim (In-append xs ys a h) [ inl l ↦ inl (inr l) | inr r ↦ inr r ]

pub In-reverse : {A : Type 0} (xs : List A) (a : A) → In a (reverse xs) → In a xs
In-reverse [] a h = h
In-reverse (x ∷ xs) a h = elim (In-append (reverse xs) (x ∷ []) a (rw reverse-cons at h)) [
  | inl r ↦ inr (In-reverse xs a r)
  | inr (inl e) ↦ inl e
  | inr (inr n) ↦ absurd n
]

module _ {A : Type 0} (less : A → A → Bool) where
  In-sink : (x : A) (ys : List A) (a : A) → In a (sink less x ys) → (x ≡ a) ⊎ In a ys
  unfolding sink
  In-sink x [] a h = h
  In-sink x (y ∷ ys) a h = ground (arith, In-sink x ys a)

  In-foldl_sink :
      (xs acc : List A) (a : A) → In a (foldl (sink_into less) acc xs) → In a acc ⊎ In a xs
  In-foldl_sink [] acc a h = inl h
  In-foldl_sink (x ∷ xs) acc a h = elim (In-foldl_sink xs (sink less x acc) a h) [
    | inl m ↦ elim (In-sink x acc a m) [ inl e ↦ inr (inl e) | inr k ↦ inl k ]
    | inr k ↦ inr (inr k)
  ]

  -- Sorting adds nothing.
  pub In-sort_slice : (xs : List A) (a : A) → In a (sort_slice less xs) → In a xs
  unfolding sort_slice
  In-sort_slice xs a h = elim (In-foldl_sink xs [] a (In-reverse _ a h)) [
    | inl n ↦ absurd n
    | inr k ↦ k
  ]

pub get_elem?-In : {A : Type 0} (xs : List A) (i : ℕ) (a : A) → get_elem? xs i ≡ some a → In a xs
get_elem?-In [] i a h = cc
get_elem?-In (x ∷ xs) zero a h = inl (some-injective _ _ h)
get_elem?-In (x ∷ xs) (suc i) a h = inr (get_elem?-In xs i a h)

module _ {F : Type 0} ⦃d : Double F⦄ where
  at_index-In :
      (candidates : List (Prediction F)) (index : Option ℕ) (p : Prediction F)
      → at_index candidates index ≡ some p
      → In p candidates
  at_index-In candidates none p h = cc
  at_index-In candidates (some i) p h = get_elem?-In candidates i p h

  -- A candidate is the prediction of one of the ids, and passed both tests.
  abbrev pub IsCandidate : Policy F → F → Map (Prediction F) → List String → Prediction F → Type 0
  IsCandidate policy floor predictions ids p =
      (model_id : String) × In model_id ids
      × (p ≡ prediction_of predictions model_id)
      × (qualifies policy floor p ≡ true)

  pub candidates_from-IsCandidate :
      (policy : Policy F) (floor : F) (predictions : Map (Prediction F)) (ids : List String)
      (p : Prediction F)
      → In p (candidates_from policy floor predictions ids)
      → IsCandidate policy floor predictions ids p
  unfolding candidates_from
  candidates_from-IsCandidate policy floor predictions [] p h = absurd h
  candidates_from-IsCandidate policy floor predictions (m ∷ ids) p h =
      elim (Bool-cases (qualifies policy floor (prediction_of predictions m))) [
        | inl q ↦ elim (rw q at h) [
          | inl e ↦ (m, inl refl, sym e, rw (← e) q)
          | inr r ↦
              let (k, i, e, t) = candidates_from-IsCandidate policy floor predictions ids p r in
              (k, inr i, e, t)
        ]
        | inr q ↦
            let (k, i, e, t) =
              candidates_from-IsCandidate policy floor predictions ids p (rw q at h) in
            (k, inr i, e, t)
      ]

  pub choose-In :
      (policy : Policy F) (request : Request F) (trace_id : String)
      (candidates : List (Prediction F)) (bucket : String) (p : Prediction F)
      → choose policy request trace_id candidates ≡ some (bucket, p)
      → In p candidates
  unfolding choose
  choose-In policy request trace_id [] bucket p h = cc
  choose-In policy request trace_id (first ∷ rest) bucket p h =
      ground (arith, at_index-In (first ∷ rest) (arm_index F trace_id (length (first ∷ rest))) p)
