-- ===== src/Routing/Feasible/Tokens.antt =====
-- The context window check adds two 64-bit integers.
use outcome_router.Base.{
  ℕ, ◌+◌, ◌^◌, ◌≤◌, ◌<◌, ◌≡◌, refl, ◌⊎◌, inl, inr, String, Bool, true, false, ◌&&◌, List, [], ◌∷◌,
  arith, ◌==◌, All,
}
use outcome_router.Base.Int.{ℤ, pos, ltb_ℤ, ◌≤ℤ◌, ◌<ℤ◌, add_int, add_int-pos, add_int_overflow}
use outcome_router.Double.{Double}
use outcome_router.Domain.{Model, Policy}
use outcome_router.Routing.Feasible.{
  Request, Engine, first_reason, constraint_checks, infeasible_reason,
}
use outcome_router.Routing.Feasible.Exact.{infeasible_reason-IsFeasible}

-- The check cannot be the one that gives the reason `r`.
abbrev Spares : String → Bool × String → Type 0
Spares r (refused, reason) = (refused ≡ false) ⊎ ((reason == r) ≡ false)

first_reason-ne :
    (r : String) (checks : List (Bool × String))
    → ("" == r) ≡ false
    → All (Spares r) checks
    → (first_reason checks == r) ≡ false
unfolding first_reason
first_reason-ne r [] h s = h
first_reason-ne r ((true, reason) ∷ checks) h (inr e, s) = e
first_reason-ne r ((true, reason) ∷ checks) h (inl e, s) = cc
first_reason-ne r ((false, reason) ∷ checks) h (_, s) = first_reason-ne r checks h s

no_excess : (window sum : ℤ) → sum <ℤ pos 0 → (ltb_ℤ (pos 0) window && ltb_ℤ window sum) ≡ false
no_excess window sum h = ground arith

module _ {F : Type 0} ⦃d : Double F⦄ (fold : ℕ → ℕ) where
  module _ (e : Engine F) (policy : Policy F) (model : Model F) (request : Request F) (cost : F)
      (a b : ℕ) (input : request.features.input_tokens ≡ pos a)
      (output : request.features.expected_output_tokens ≡ pos b) where
    -- If the sum of the tokens fits an `int`, a feasible model has room for all of them, unless it
    -- states no window.
    feasible-fits_context :
        a + b < 2 ^ 63
        → (infeasible_reason fold e policy model request cost == "") ≡ true
        → (model.context_window ≤ℤ pos 0) ⊎ (pos (a + b) ≤ℤ model.context_window)
    feasible-fits_context h ok =
        let fits = (infeasible_reason-IsFeasible fold e policy model request cost ok).context in
        let sum : add_int request.features.input_tokens request.features.expected_output_tokens
            ≡ pos (a + b) =
          rw (input, output) (add_int-pos a b h) in
        ground arith

    -- If the sum of the tokens passes the largest `int`, the context window is never the reason for
    -- a refusal, however small it is.
    pub context_window_overflow :
        a < 2 ^ 63
        → b < 2 ^ 63
        → 2 ^ 63 ≤ a + b
        → (infeasible_reason fold e policy model request cost == "context_window") ≡ false
    unfolding infeasible_reason constraint_checks
    context_window_overflow ha hb h =
        first_reason-ne "context_window" (constraint_checks fold e policy model request cost) refl (
          inr refl,
          (
            inr refl,
            (
              inl (
                  rw (input, output)
                    (no_excess model.context_window _ (add_int_overflow a b ha hb h))),
              (
                inr refl,
                (
                  inr refl,
                  (inr refl, (inr refl, (inr refl, (inr refl, (inr refl, (inr refl, tt)))))),
                ),
              ),
            ),
          ),
        )
