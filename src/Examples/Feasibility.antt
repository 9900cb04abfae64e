-- ===== src/Examples/Feasibility.antt =====
-- The constraints and the predictions on concrete models.
use outcome_router.Base.{◌^◌, ℕ, ◌≡◌, refl, ◌↔◌, false, ◌==◌, arith, lookup}
use outcome_router.Base.Int.{pos}
use outcome_router.Double.{zero_float, one_float}
use outcome_router.Double.Laws.{◌≼◌}
use outcome_router.Double.Fixed.{Fixed, fixed_double}
use outcome_router.Double.Fixed.Ordered.{Fixed-IsOrdered}
use outcome_router.Double.Fixed.Rounded.{Fixed-IsRounded}
use outcome_router.Domain.{zdr, any_privacy}
use outcome_router.Routing.Feasible.{Request, infeasible_reason}
use outcome_router.Routing.Feasible.Exact.{IsFeasible, infeasible_reason_iff}
use outcome_router.Routing.Feasible.Overrides.{with_limits, infeasible_reason-with_limits}
use outcome_router.Routing.Feasible.Tokens.{context_window_overflow}
use outcome_router.Routing.Predict.{predict, raw_success, score_of, workflow_score}
use outcome_router.Routing.Predict.Bounds.{predict_bounds}
use outcome_router.Examples.World.{policy, request, engine, premium, economy, decimal}

abbrev keep : ℕ → ℕ
keep c = c

infeasible_reason_iff_example :
    (infeasible_reason keep engine policy premium request (decimal 1 2) ≡ "")
    ↔ IsFeasible keep engine policy premium request (decimal 1 2)
infeasible_reason_iff_example =
    infeasible_reason_iff keep engine policy premium request (decimal 1 2)

abbrev demanding : Request Fixed
demanding = record request {
  metadata = record request.metadata {
    required_privacy = zdr;
    deadline_ms = pos 5000;
    max_cost_usd = decimal 1 0;
  };
}

infeasible_reason-with_limits_example :
    infeasible_reason keep engine
      (with_limits keep policy any_privacy (pos 1) (decimal 1 3))
      premium
      demanding
      (decimal 1 2)
    ≡ infeasible_reason keep engine policy premium demanding (decimal 1 2)
infeasible_reason-with_limits_example =
    infeasible_reason-with_limits keep engine policy premium demanding (decimal 1 2) any_privacy
      (pos 1) (decimal 1 3) refl refl refl

-- More tokens than an `int` holds.
abbrev huge : Request Fixed
huge = record request {
  features = record request.features {
    input_tokens = pos (2 ^ 62);
    expected_output_tokens = pos (2 ^ 62);
  };
}

context_window_overflow_example :
    (infeasible_reason keep engine policy economy huge (decimal 1 2) == "context_window") ≡ false
context_window_overflow_example =
    context_window_overflow keep engine policy economy huge (decimal 1 2) (2 ^ 62) (2 ^ 62) refl
      refl (omega arith) (omega arith) (omega arith)

predict_bounds_example :
    let p = predict keep (λ m. m) engine policy premium request in
    (zero_float ≼ p.success)
    × (p.success ≼ one_float)
    × (decimal 5 3 ≼ p.uncertainty)
    × (p.uncertainty ≼ decimal 5 1)
    × (zero_float ≼ p.lower_bound)
    × (p.lower_bound ≼ p.success)
unfolding raw_success score_of workflow_score lookup
predict_bounds_example =
    predict_bounds Fixed-IsOrdered Fixed-IsRounded keep (λ m. m) engine policy premium request refl
      refl refl
