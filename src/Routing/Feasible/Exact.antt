-- ===== src/Routing/Feasible/Exact.antt =====
-- The empty reason means that every hard constraint holds, and the other way round.
use outcome_router.Base.{
  ℕ, ◌≡◌, refl, ap, eq_iff, ◌&&◌, ◌↔◌, ◌⊎◌, String, Bool, true, false, not, List, [], ◌∷◌, arith,
  is_empty, ◌==◌, All,
}
use outcome_router.Base.Int.{ℤ, pos, add_int, ltb_ℤ, ◌≤ℤ◌}
use outcome_router.Double.{Double, zero_float, ltf}
use outcome_router.Domain.{Model, Policy}
use outcome_router.Routing.Feasible.{
  Request, Engine, available, equal_fold, contains_fold, privacy_satisfies, effective_privacy,
  effective_deadline, effective_max_cost, infeasible_reason, first_reason, constraint_checks,
}

not-false : (a : Bool) → not a ≡ false → a ≡ true
not-false a h = ground arith

and-false : (a b : Bool) → (a && b) ≡ false → (a ≡ false) ⊎ (b ≡ false)
and-false a b h = ground arith

false-and : (a b : Bool) → (a ≡ false) ⊎ (b ≡ false) → (a && b) ≡ false
false-and a b h = ground arith

and_not-false : (a b : Bool) → (a && not b) ≡ false → (a ≡ false) ⊎ (b ≡ true)
and_not-false a b h = ground arith

false-and_not : (a b : Bool) → (a ≡ false) ⊎ (b ≡ true) → (a && not b) ≡ false
false-and_not a b h = ground arith

not-not-false : (a b : Bool) → (not a && not b) ≡ false → (a ≡ true) ⊎ (b ≡ true)
not-not-false a b h = ground arith

false-not-not : (a b : Bool) → (a ≡ true) ⊎ (b ≡ true) → (not a && not b) ≡ false
false-not-not a b h = ground arith

ltb_not-false : (x y : ℤ) (b : Bool) → (ltb_ℤ x y && not b) ≡ false → (y ≤ℤ x) ⊎ (b ≡ true)
ltb_not-false x y b h = ground arith

false-ltb_not : (x y : ℤ) (b : Bool) → (y ≤ℤ x) ⊎ (b ≡ true) → (ltb_ℤ x y && not b) ≡ false
false-ltb_not x y b h = ground arith

ltb_ltb-false : (x y z w : ℤ) → (ltb_ℤ x y && ltb_ℤ z w) ≡ false → (y ≤ℤ x) ⊎ (w ≤ℤ z)
ltb_ltb-false x y z w h = ground arith

false-ltb_ltb : (x y z w : ℤ) → (y ≤ℤ x) ⊎ (w ≤ℤ z) → (ltb_ℤ x y && ltb_ℤ z w) ≡ false
false-ltb_ltb x y z w h = ground arith

abbrev Passed : Bool × String → Type 0
Passed (refused, reason) = refused ≡ false

abbrev HasReason : Bool × String → Type 0
HasReason (refused, reason) = (reason == "") ≡ false

first_reason-Passed :
    (checks : List (Bool × String))
    → All HasReason checks
    → (first_reason checks == "") ≡ true
    → All Passed checks
unfolding first_reason
first_reason-Passed [] r h = tt
first_reason-Passed ((true, reason) ∷ checks) r h = cc (r.0)
first_reason-Passed ((false, reason) ∷ checks) r h = (refl, first_reason-Passed checks r.1 h)

first_reason-of_Passed :
    (checks : List (Bool × String)) → All Passed checks → first_reason checks ≡ ""
unfolding first_reason
first_reason-of_Passed [] h = refl
first_reason-of_Passed ((refused, reason) ∷ checks) h = rw h.0 (first_reason-of_Passed checks h.1)

module _ {F : Type 0} ⦃d : Double F⦄ (fold : ℕ → ℕ) where
  checks_have_reasons :
      (e : Engine F) (policy : Policy F) (model : Model F) (request : Request F) (cost : F)
      → All HasReason (constraint_checks fold e policy model request cost)
  unfolding constraint_checks
  checks_have_reasons e policy model request cost = ground arith

module _ {F : Type 0} ⦃d : Double F⦄ (fold : ℕ → ℕ) where
  -- The hard constraints, one by one.
  pub record IsFeasible (e : Engine F) (policy : Policy F) (model : Model F) (request : Request F)
      (cost : F) : Type 0 where
    pub enabled : model.enabled ≡ true
    pub healthy : available e.health model.provider ≡ true
    pub context :
        (model.context_window ≤ℤ pos 0)
        ⊎ (add_int request.features.input_tokens request.features.expected_output_tokens
            ≤ℤ model.context_window)
    pub tools : (request.features.tool_count ≤ℤ pos 0) ⊎ (model.supports_tools ≡ true)
    pub structured :
        (request.features.has_structured_output ≡ false) ⊎ (model.supports_structured ≡ true)
    pub vision : (request.features.has_vision ≡ false) ⊎ (model.supports_vision ≡ true)
    pub region :
        ((request.metadata.required_region == "") ≡ true)
        ⊎ (equal_fold fold model.region request.metadata.required_region ≡ true)
    pub policy_region :
        (is_empty policy.constraints.allowed_regions ≡ true)
        ⊎ (contains_fold fold policy.constraints.allowed_regions model.region ≡ true)
    pub privacy : privacy_satisfies model.privacy (effective_privacy fold policy request) ≡ true
    pub latency :
        (effective_deadline fold policy request ≤ℤ pos 0)
        ⊎ (model.p95_latency_ms ≤ℤ effective_deadline fold policy request)
    pub cost_cap :
        (ltf zero_float (effective_max_cost fold policy request) ≡ false)
        ⊎ (ltf (effective_max_cost fold policy request) cost ≡ false)

  checks-Passed :
      (e : Engine F) (policy : Policy F) (model : Model F) (request : Request F) (cost : F)
      → (infeasible_reason fold e policy model request cost == "") ≡ true
      → All Passed (constraint_checks fold e policy model request cost)
  unfolding infeasible_reason
  checks-Passed e policy model request cost =
      first_reason-Passed (constraint_checks fold e policy model request cost)
        (checks_have_reasons fold e policy model request cost)

  IsFeasible-of_Passed :
      (e : Engine F) (policy : Policy F) (model : Model F) (request : Request F) (cost : F)
      → All Passed (constraint_checks fold e policy model request cost)
      → IsFeasible e policy model request cost
  unfolding constraint_checks
  IsFeasible-of_Passed e policy model request cost
        (c0, (c1, (c2, (c3, (c4, (c5, (c6, (c7, (c8, (c9, (c10, _))))))))))) =
      let needed = add_int request.features.input_tokens request.features.expected_output_tokens in
      let deadline = effective_deadline fold policy request in
      record {
        enabled = not-false _ c0;
        healthy = not-false _ c1;
        context = ltb_ltb-false (pos 0) model.context_window model.context_window needed c2;
        tools = ltb_not-false (pos 0) request.features.tool_count _ c3;
        structured = and_not-false _ _ c4;
        vision = and_not-false _ _ c5;
        region = not-not-false _ _ c6;
        policy_region = not-not-false _ _ c7;
        privacy = not-false _ c8;
        latency = ltb_ltb-false (pos 0) deadline deadline model.p95_latency_ms c9;
        cost_cap = and-false _ _ c10;
      }

  Passed-of-IsFeasible :
      (e : Engine F) (policy : Policy F) (model : Model F) (request : Request F) (cost : F)
      → IsFeasible e policy model request cost
      → All Passed (constraint_checks fold e policy model request cost)
  unfolding constraint_checks
  Passed-of-IsFeasible e policy model request cost h =
      let needed = add_int request.features.input_tokens request.features.expected_output_tokens in
      let deadline = effective_deadline fold policy request in
      (
        ap not h.enabled,
        (
          ap not h.healthy,
          (
            false-ltb_ltb (pos 0) model.context_window model.context_window needed h.context,
            (
              false-ltb_not (pos 0) request.features.tool_count _ h.tools,
              (
                false-and_not _ _ h.structured,
                (
                  false-and_not _ _ h.vision,
                  (
                    false-not-not _ _ h.region,
                    (
                      false-not-not _ _ h.policy_region,
                      (
                        ap not h.privacy,
                        (
                          false-ltb_ltb (pos 0) deadline deadline model.p95_latency_ms h.latency,
                          (false-and _ _ h.cost_cap, tt),
                        ),
                      ),
                    ),
                  ),
                ),
              ),
            ),
          ),
        ),
      )

  pub infeasible_reason-IsFeasible :
      (e : Engine F) (policy : Policy F) (model : Model F) (request : Request F) (cost : F)
      → (infeasible_reason fold e policy model request cost == "") ≡ true
      → IsFeasible e policy model request cost
  infeasible_reason-IsFeasible e policy model request cost h =
      IsFeasible-of_Passed e policy model request cost (checks-Passed e policy model request cost h)

  -- The reason is empty exactly when the model is enabled and healthy, the wrapped sum of the
  -- tokens fits the context window or there is no window, every capability that the request needs
  -- is there, both region rules hold, the privacy level in force is met, and the latency and the
  -- cost stay within the limits in force.
  pub infeasible_reason_iff :
      (e : Engine F) (policy : Policy F) (model : Model F) (request : Request F) (cost : F)
      → (infeasible_reason fold e policy model request cost ≡ "")
        ↔ IsFeasible e policy model request cost
  unfolding infeasible_reason
  infeasible_reason_iff e policy model request cost = (
    λ h. infeasible_reason-IsFeasible e policy model request cost ((eq_iff _ "").1 h),
    λ h. first_reason-of_Passed _ (Passed-of-IsFeasible e policy model request cost h),
  )
