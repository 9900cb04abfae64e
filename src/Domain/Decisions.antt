-- ===== src/Domain/Decisions.antt =====
-- internal/domain/types.go: predictions and the record of a routing decision.
use outcome_router.Base.{String, Bool, false, List, Option, Map}
use outcome_router.Base.Int.{ℤ, pos}
use outcome_router.Double.{Double, zero_float}
use outcome_router.Domain.Catalog.{RiskClass}
use outcome_router.Domain.Policies.{Time}
use outcome_router.Domain.Requests.{Features}

pub record Prediction (F : Type 0) : Type 0 where
  pub model_id : String
  pub success : F
  pub lower_bound : F
  pub uncertainty : F
  pub samples : ℤ
  pub estimated_cost_usd : F
  pub p95_latency_ms : ℤ
  pub eligible : Bool
  pub reason : String

-- What Go reads from the map of predictions at a missing key.
abbrev pub no_prediction : {F : Type 0} → ⦃d : Double F⦄ → Prediction F
no_prediction = record {
  model_id = "";
  success = zero_float;
  lower_bound = zero_float;
  uncertainty = zero_float;
  samples = pos 0;
  estimated_cost_usd = zero_float;
  p95_latency_ms = pos 0;
  eligible = false;
  reason = "";
}

pub record RouteDecision (F : Type 0) : Type 0 where
  pub id : String
  pub parent_decision_id : String
  pub tenant_id : String
  pub trace_id : String
  pub workflow : String
  pub step : String
  pub risk_class : RiskClass
  pub policy_id : String
  pub policy_version : String
  pub snapshot_version : String
  pub catalog_version : String
  pub incumbent_model : String
  pub selected_model : String
  pub final_model : String
  pub bucket : String
  pub fallback_reason : String
  pub feasible_models : List String
  pub shadow_models : List String
  pub predictions : Map (Prediction F)
  pub features : Features F
  pub estimated_cost_usd : F
  pub incumbent_estimated_cost_usd : F
  pub actual_cost_usd : F
  pub input_tokens : ℤ
  pub output_tokens : ℤ
  pub routing_latency_micros : ℤ
  pub provider_latency_ms : ℤ
  pub attempted_models : List String
  pub upstream_status : ℤ
  pub error : String
  pub created_at : Time
  pub completed_at : Option Time
