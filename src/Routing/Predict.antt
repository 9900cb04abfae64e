-- ===== src/Routing/Predict.antt =====
-- internal/routing/engine.go: the prediction for one model.
pub mod Bounds
use mathlib.Core.List.{foldl}
use outcome_router.Base.{String, Option, none, some, Map, lookup, ◌==◌, get_or, ℕ, []}
use outcome_router.Base.Int.{ℤ, pos}
use outcome_router.Double.{Double, ◌⊕◌, ◌⊖◌, ◌⊗◌, ◌⊘◌, zero_float, one_float}
use outcome_router.Domain.{Model, Policy, Snapshot, ModelScore, Features, vector, Prediction}
use outcome_router.Routing.Feasible.{Request, Engine, infeasible_reason}

module _ {F : Type 0} ⦃d : Double F⦄ where
  unfoldable pub workflow_score : Snapshot F → String → String → Option (ModelScore F)
  workflow_score snapshot workflow model_id =
      let global = lookup model_id snapshot.global in
      elim (lookup workflow snapshot.by_workflow) [
        | none ↦ global
        | some scores ↦ elim (lookup model_id scores) [ none ↦ global | some score ↦ some score ]
      ]

  unfoldable pub estimate_cost : Model F → Features F → F
  estimate_cost model features =
      (d.of_int features.input_tokens ⊗ model.input_cost_per_m_tokens
        ⊕ d.of_int features.expected_output_tokens ⊗ model.output_cost_per_m_tokens)
      ⊘ d.decimal 1_000_000 0

  unfoldable pub actual_cost : Model F → ℤ → ℤ → F
  actual_cost model input_tokens output_tokens =
      (d.of_int input_tokens ⊗ model.input_cost_per_m_tokens
        ⊕ d.of_int output_tokens ⊗ model.output_cost_per_m_tokens)
      ⊘ d.decimal 1_000_000 0

  unfoldable pub clamp : F → F → F → F
  clamp value minimum maximum = d.max minimum (d.min maximum value)

  abbrev prior_score : Model F → ModelScore F
  prior_score model = record {
    success_rate = model.quality_prior;
    uncertainty = d.decimal 25 2;
    samples = pos 0;
    weights = [];
    bias = zero_float;
  }

  abbrev add_weighted : Map F → F → String × F → F
  add_weighted weights success (name, value) =
      success ⊕ get_or (lookup name weights) zero_float ⊗ value

  unfoldable pub score_of : Policy F → Model F → Request F → ModelScore F
  score_of policy model request =
      get_or (workflow_score policy.snapshot request.metadata.workflow model.id) (prior_score model)

  -- The success before it is clamped. `visit` is the order in which Go visits the map of the
  -- features.
  unfoldable pub raw_success : (Map F → Map F) → ModelScore F → Features F → F
  raw_success visit score features =
      foldl (add_weighted score.weights) (score.success_rate ⊕ score.bias) (visit (vector features))

  unfoldable pub predict :
      (ℕ → ℕ) → (Map F → Map F) → Engine F → Policy F → Model F → Request F → Prediction F
  predict fold visit e policy model request =
      let cost = estimate_cost model request.features in
      let reason = infeasible_reason fold e policy model request cost in
      let score = score_of policy model request in
      let success = clamp (raw_success visit score request.features) zero_float one_float in
      let uncertainty = clamp score.uncertainty (d.decimal 5 3) (d.decimal 5 1) in
      record {
        model_id = model.id;
        success = success;
        lower_bound = clamp (success ⊖ policy.confidence_z ⊗ uncertainty) zero_float one_float;
        uncertainty = uncertainty;
        samples = score.samples;
        estimated_cost_usd = cost;
        p95_latency_ms = model.p95_latency_ms;
        eligible = reason == "";
        reason = reason;
      }
