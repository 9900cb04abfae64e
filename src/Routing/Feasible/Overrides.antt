-- ===== src/Routing/Feasible/Overrides.antt =====
-- `infeasibleReason` takes the privacy, the deadline and the cost limit of the request in place of
-- the policy's, also where the request asks for less.
use outcome_router.Base.{ℕ, ◌≡◌, false}
use outcome_router.Base.Int.{ℤ, pos, eq_ℤ}
use outcome_router.Double.{Double, zero_float}
use outcome_router.Domain.{Model, Policy, Privacy, is_unset}
use outcome_router.Routing.Feasible.{Request, Engine, constraint_checks, infeasible_reason}

module _ {F : Type 0} ⦃d : Double F⦄ (fold : ℕ → ℕ) where
  -- The policy with other limits of the three kinds that a request can name.
  abbrev pub with_limits : Policy F → Privacy → ℤ → F → Policy F
  with_limits policy privacy latency cost = record policy {
    constraints = record policy.constraints {
      required_privacy = privacy;
      max_p95_latency_ms = latency;
      max_estimated_cost_usd = cost;
    };
  }

  -- If the request names a privacy level, a deadline that is not 0 and a cost limit that is not 0,
  -- the verdict on a model is the same whatever the policy's privacy level, latency limit and cost
  -- limit are.
  pub infeasible_reason-with_limits :
      (e : Engine F) (policy : Policy F) (model : Model F) (request : Request F) (cost : F)
      (privacy : Privacy) (latency : ℤ) (limit : F)
      → is_unset request.metadata.required_privacy ≡ false
      → eq_ℤ request.metadata.deadline_ms (pos 0) ≡ false
      → d.eq request.metadata.max_cost_usd zero_float ≡ false
      → infeasible_reason fold e (with_limits policy privacy latency limit) model request cost
        ≡ infeasible_reason fold e policy model request cost
  unfolding infeasible_reason constraint_checks
  infeasible_reason-with_limits e policy model request cost privacy latency limit p t c =
      rw (p, t, c)
