-- ===== src/Routing/Route/Total.antt =====
-- `Route` does not panic: the index of the explored candidate is in range.
use outcome_router.Base.{
  ℕ, ◌*◌, ◌%◌, ◌^◌, ◌≤◌, ◌<◌, String, ◌≡◌, ◌≢◌, refl, inl, inr, false, Option, none, some, List, [],
  ◌∷◌, arith, ◌<>◌, length, get_elem?-some, Map, Bool-cases, is_empty,
}
use outcome_router.Base.Int.{pos}
use outcome_router.Double.{Double, ◌⊘◌, ◌⊗◌, ◌⊖◌}
use outcome_router.Double.Laws.{IsRounded, Within}
use outcome_router.Domain.{Policy, Prediction, RouteDecision}
use outcome_router.Routing.Feasible.{Request, Engine}
use outcome_router.Routing.Hash.{hash_percent, hash_millionths, hash_millionths_lt}
use outcome_router.Routing.Select.{
  arm_index, choose, sort_slice, cheaper, candidates_from, prediction_of,
}
use outcome_router.Routing.Select.Sort.{length-sort_slice}
use outcome_router.Routing.Route.{Ambient, route, allocate, optimize, select}
use outcome_router.Routing.Route.Buckets.{route_candidates, shadowed_decision}

not-none : {A : Type 0} (o : Option A) → o ≢ none → (x : A) × (o ≡ some x)
not-none none h = absurd (h refl)
not-none (some x) h = (x, refl)

select_total :
    {F : Type 0} ⦃d : Double F⦄ (a : Ambient F) (policy : Policy F) (before : RouteDecision F)
    (choice : Option (String × Prediction F))
    → choice ≢ none
    → select a policy before choice ≢ none
unfolding select
select_total a policy before none h = absurd (h refl)
select_total a policy before (some (bucket, p)) h = λ e. cc

module _ {F : Type 0} ⦃d : Double F⦄ (rounded : IsRounded F) where
  hash_percent-Within : (value : String) → Within {F = F} 1_000_000 (hash_percent value)
  unfolding hash_percent
  hash_percent-Within value = rw (rounded.decimal_of_int 10_000 (omega arith)) (
      rounded.div-Within 1_000_000 9_999 (d.of_int (pos (hash_millionths value))) (omega arith)
        (omega arith)
        (rounded.of_int-Within (hash_millionths value) 1_000_000
          (omega (arith, hash_millionths_lt value)) (omega arith)))

  arm_index-lt :
      (trace_id : String) (len : ℕ)
      → 0 < len
      → len < 2 ^ 32
      → (i : ℕ) × (i < len) × (arm_index F trace_id len ≡ some i)
  unfolding arm_index
  arm_index-lt trace_id len p h =
      let hash : F = hash_percent (trace_id <> "|arm") in
      let small : 1_000_000 * len < 2 ^ 53 = omega arith in
      let share =
        rounded.div-Within 1_000_000 99 hash (omega arith) (omega arith)
          (hash_percent-Within (trace_id <> "|arm")) in
      let count = rounded.of_int-Within len len (omega arith) (omega arith) in
      let (m, _, whole) =
        rounded.to_int-Within (1_000_000 * len) (hash ⊘ d.of_int (pos 100) ⊗ d.of_int (pos len))
          small
          (rounded.mul-Within 1_000_000 len (hash ⊘ d.of_int (pos 100)) (d.of_int (pos len)) small
            share count) in
      (m % len, omega arith, rw (rounded.decimal_of_int 100 (omega arith), whole))

  choose_total :
      (policy : Policy F) (request : Request F) (trace_id : String) (first : Prediction F)
      (rest : List (Prediction F))
      → length (first ∷ rest) < 2 ^ 32
      → choose policy request trace_id (first ∷ rest) ≢ none
  unfolding choose
  choose_total policy request trace_id first rest h =
      let (i, below, e) = arm_index-lt trace_id (length (first ∷ rest)) (omega arith) h in
      let (p, at) = get_elem?-some (first ∷ rest) i below in ground arith

  length-candidates_from :
      (policy : Policy F) (floor : F) (predictions : Map (Prediction F)) (ids : List String)
      → length (candidates_from policy floor predictions ids) ≤ length ids
  unfolding candidates_from
  length-candidates_from policy floor predictions [] = omega arith
  length-candidates_from policy floor predictions (k ∷ ids) =
      ground (arith, length-candidates_from policy floor predictions ids)

  choose_sorted_total :
      (policy : Policy F) (request : Request F) (trace_id : String)
      (candidates : List (Prediction F))
      → is_empty candidates ≡ false
      → length candidates < 2 ^ 32
      → choose policy request trace_id candidates ≢ none
  choose_sorted_total policy request trace_id [] full h = cc
  choose_sorted_total policy request trace_id (first ∷ rest) full h =
      choose_total policy request trace_id first rest h

  is_empty-sort_slice :
      (xs : List (Prediction F)) → is_empty xs ≡ false → is_empty (sort_slice cheaper xs) ≡ false
  is_empty-sort_slice xs h = ground (arith, length-sort_slice cheaper xs)

  optimize_total :
      (a : Ambient F) (policy : Policy F) (request : Request F) (before : RouteDecision F)
      → length policy.candidate_models < 2 ^ 32
      → optimize a policy request before ≢ none
  unfolding optimize select
  optimize_total a policy request before h =
      let candidates = route_candidates policy before in
      elim (Bool-cases (is_empty candidates)) [
        | inl empty ↦ rw (empty, optimize) (λ e. cc)
        | inr full ↦
            let few : length (sort_slice cheaper candidates) < 2 ^ 32 = omega (
              arith,
              length-sort_slice cheaper candidates,
              length-candidates_from policy
                  ((prediction_of before.predictions policy.incumbent_model).success
                    ⊖ policy.quality_tolerance)
                  before.predictions policy.candidate_models,
            ) in
            let chosen =
              choose_sorted_total policy request before.trace_id (sort_slice cheaper candidates)
                (is_empty-sort_slice candidates full) few in
            rw (full, optimize)
              (select_total a policy before
                (choose policy request before.trace_id (sort_slice cheaper candidates)) chosen)
      ]

  -- With operations that round as `IsRounded` says and fewer than 2 ^ 32 candidates, `Route`
  -- returns a decision: it does not panic.
  pub route_total :
      (a : Ambient F) (e : Engine F) (tenant_id : String) (policy : Policy F) (request : Request F)
      → length policy.candidate_models < 2 ^ 32
      → (decision : RouteDecision F) × (route a e tenant_id policy request ≡ some decision)
  unfolding route allocate
  route_total a e tenant_id policy request h =
      let live : RouteDecision F = shadowed_decision a e tenant_id policy request in
      not-none (route a e tenant_id policy request)
        (ground (arith, optimize_total a policy request live h))
