-- ===== src/Store/Tally/Groups.antt =====
-- What the loop over the decisions counts, and how it groups the traces.
use outcome_router.Base.{
  ℕ, ◌+◌, ◌≤◌, String, ◌≡◌, ◌∙◌, refl, inl, inr, Bool, true, false, not, ◌&&◌, ◌||◌, Option, none,
  some, List, [], ◌∷◌, Map, lookup, has_key, lookup-insert, if◌then◌else◌, ◌==◌, arith, Bool-cases,
  subst, is_some, eq_iff,
}
use outcome_router.Double.{Double}
use outcome_router.Domain.{RouteDecision}
use outcome_router.Store.Tally.{
  one_if, Tally, Query, is_counted, is_shadow_decision, is_treated, group_trace, tally_one, tally,
  no_tally,
}

at_most_one : (b : Bool) (k n : ℕ) → k ≤ n → k + one_if b ≤ n + 1
at_most_one b k n h = ground arith

shift : (b : Bool) (n m : ℕ) → (if b then n + 1 else n) + m ≡ n + (if b then m + 1 else m)
shift b n m = ground arith

-- The group of a trace that has a request, by whether one was treated.
abbrev pub group : Bool → Bool → Option String → Option String
group treated requested before =
    if treated
    then some "treatment"
    else if is_some before
    then before
    else if requested
    then some "control"
    else none

keeps : (before : Option String) → before ≡ group false false before
keeps none = refl
keeps (some name) = refl

-- The groups of a first decision and of the others, one after the other.
grouped_twice :
    (r t treated requested : Bool) (before : Option String)
    → (treated ≡ true → requested ≡ true)
    → group treated requested (group (r && t) r before)
      ≡ group ((r && t) || treated) (r || requested) before
grouped_twice r t treated requested before h = ground arith

module _ {F : Type 0} ⦃d : Double F⦄ (q : Query) where
  abbrev pub count : List (RouteDecision F) → ℕ
  count [] = 0
  count (decision ∷ decisions) =
      let n = count decisions in if is_counted q decision then n + 1 else n

  -- The counters keep their relation.
  abbrev IsBalanced : Tally F → ℕ → Type 0
  IsBalanced t n =
      (t.requests + t.shadow_requests ≡ n)
      × (t.control_requests ≤ t.requests)
      × (t.routed_requests ≤ t.requests)

  tally_one-IsBalanced :
      (decision : RouteDecision F) (t : Tally F) (n : ℕ)
      → IsBalanced t n
      → IsBalanced (tally_one q decision t) (if is_counted q decision then n + 1 else n)
  unfolding tally_one
  tally_one-IsBalanced decision t n (sum, control, routed) =
      elim (Bool-cases (is_counted q decision)) [
        | inr skipped ↦ rw (skipped) (sum, control, routed)
        | inl counted ↦ elim (Bool-cases (is_shadow_decision decision)) [
          | inl shadow ↦ rw (counted, shadow) (omega (arith, sum), control, routed)
          | inr live ↦
              rw (counted, live)
                (
                  omega (arith, sum),
                  at_most_one _ t.control_requests t.requests control,
                  at_most_one _ t.routed_requests t.requests routed,
                )
        ]
      ]

  tally-IsBalanced :
      (decisions : List (RouteDecision F)) (t : Tally F) (n : ℕ)
      → IsBalanced t n
      → IsBalanced (tally q decisions t) (n + count decisions)
  unfolding tally
  tally-IsBalanced [] t n (sum, control, routed) = (omega (arith, sum), control, routed)
  tally-IsBalanced (decision ∷ decisions) t n h =
      subst (IsBalanced (tally q decisions (tally_one q decision t)))
        (shift (is_counted q decision) n (count decisions))
        (tally-IsBalanced decisions (tally_one q decision t)
          (if is_counted q decision then n + 1 else n) (tally_one-IsBalanced decision t n h))

  -- Every counted decision is a request or a shadow request, once, and neither the control requests
  -- nor the routed ones are more than the requests.
  pub tally_counts :
      (decisions : List (RouteDecision F))
      → let t = tally q decisions no_tally in
        (t.requests + t.shadow_requests ≡ count decisions)
        × (t.control_requests ≤ t.requests)
        × (t.routed_requests ≤ t.requests)
  tally_counts decisions =
      subst (IsBalanced (tally q decisions no_tally)) (omega arith)
        (tally-IsBalanced decisions no_tally 0 (omega arith, omega arith, omega arith))

  -- A request of a trace, and one that was treated.
  abbrev pub is_request : String → RouteDecision F → Bool
  is_request trace decision =
      is_counted q decision && not (is_shadow_decision decision) && decision.trace_id == trace

  abbrev pub has_request : String → List (RouteDecision F) → Bool
  has_request trace [] = false
  has_request trace (decision ∷ decisions) =
      is_request trace decision || has_request trace decisions

  abbrev pub has_treated : String → List (RouteDecision F) → Bool
  has_treated trace [] = false
  has_treated trace (decision ∷ decisions) =
      (is_request trace decision && is_treated decision) || has_treated trace decisions

  request-of_treated :
      (trace : String) (decisions : List (RouteDecision F))
      → has_treated trace decisions ≡ true
      → has_request trace decisions ≡ true
  request-of_treated trace [] h = cc
  request-of_treated trace (decision ∷ decisions) h =
      ground (arith, request-of_treated trace decisions)

  group_trace-lookup :
      (trace : String) (decision : RouteDecision F) (groups : Map String)
      → lookup trace (group_trace decision groups)
        ≡ group
            (decision.trace_id == trace && is_treated decision)
            (decision.trace_id == trace)
            (lookup trace groups)
  unfolding has_key
  group_trace-lookup trace decision groups = ground (
    arith,
    lookup-insert decision.trace_id trace "treatment" groups,
    lookup-insert decision.trace_id trace "control" groups,
    eq_iff decision.trace_id trace,
  )

  tally_one-lookup :
      (trace : String) (decision : RouteDecision F) (t : Tally F)
      → lookup trace (tally_one q decision t).trace_buckets
        ≡ group
            (is_request trace decision && is_treated decision)
            (is_request trace decision)
            (lookup trace t.trace_buckets)
  unfolding tally_one
  tally_one-lookup trace decision t = elim (Bool-cases (is_counted q decision)) [
    | inr skipped ↦ rw (skipped) (keeps (lookup trace t.trace_buckets))
    | inl counted ↦ elim (Bool-cases (is_shadow_decision decision)) [
      | inl shadow ↦ rw (counted, shadow) (keeps (lookup trace t.trace_buckets))
      | inr live ↦ rw (counted, live) (group_trace-lookup trace decision t.trace_buckets)
    ]
  ]

  tally-lookup :
      (trace : String) (decisions : List (RouteDecision F)) (t : Tally F)
      → lookup trace (tally q decisions t).trace_buckets
        ≡ group
            (has_treated trace decisions)
            (has_request trace decisions)
            (lookup trace t.trace_buckets)
  unfolding tally
  tally-lookup trace [] t = keeps (lookup trace t.trace_buckets)
  tally-lookup trace (decision ∷ decisions) t =
      tally-lookup trace decisions (tally_one q decision t)
      ∙ rw (tally_one-lookup trace decision t) (
          grouped_twice (is_request trace decision) (is_treated decision)
            (has_treated trace decisions) (has_request trace decisions)
            (lookup trace t.trace_buckets) (request-of_treated trace decisions))

  -- In whatever order the decisions come, a trace is in the treatment group exactly when a counted
  -- request of it was in the treatment or exploration bucket, in the control group when it has
  -- counted requests and none was, and in no group without a counted request.
  pub trace_groups_lem :
      (trace : String) (decisions : List (RouteDecision F))
      → lookup trace (tally q decisions no_tally).trace_buckets ≡ (
          if has_treated trace decisions
          then some "treatment"
          else if has_request trace decisions
          then some "control"
          else none)
  unfolding lookup
  trace_groups_lem trace decisions = tally-lookup trace decisions no_tally
