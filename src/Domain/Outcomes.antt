-- ===== src/Domain/Outcomes.antt =====
-- internal/domain/types.go: outcomes and the audit's summaries.
use outcome_router.Base.{ℕ, String, Bool, true, false, Option, none, some, Map}
use outcome_router.Double.{Double, zero_float, one_float}
use outcome_router.Domain.Policies.{Time}

-- The JSON value of an outcome. A number that no `float64` holds is `number none`; texts, arrays and
-- objects decode neither as a number nor as a Boolean.
pub data RawMessage (F : Type 0) : Type 0 where
  null : RawMessage F
  number : Option F → RawMessage F
  boolean : Bool → RawMessage F
  other_value : String → RawMessage F

pub record Outcome (F : Type 0) : Type 0 where
  pub id : String
  pub tenant_id : String
  pub decision_id : String
  pub trace_id : String
  pub type : String
  pub value : RawMessage F
  pub occurred_at : Time
  pub metadata : Map String
  pub created_at : Time

-- `null` leaves Go's number at 0, with no error.
unfoldable pub numeric_value : {F : Type 0} → ⦃d : Double F⦄ → RawMessage F → Option F
numeric_value null = some zero_float
numeric_value (number (some x)) = some x
numeric_value (number none) = none
numeric_value (boolean true) = some one_float
numeric_value (boolean false) = some zero_float
numeric_value (other_value s) = none

pub record ModelSummary (F : Type 0) : Type 0 where
  pub requests : ℕ
  pub cost_usd : F
  pub successes : F
  pub outcomes : ℕ
  pub success_rate : F

pub record Interval (F : Type 0) : Type 0 where
  pub estimate : F
  pub lower : F
  pub upper : F
  pub n : ℕ

pub record AuditSummary (F : Type 0) : Type 0 where
  pub tenant_id : String
  pub policy_id : String
  pub since : Time
  pub requests : ℕ
  pub routed_requests : ℕ
  pub control_requests : ℕ
  pub shadow_requests : ℕ
  pub actual_cost_usd : F
  pub estimated_cost_usd : F
  pub incumbent_cost_usd : F
  pub verified_gross_savings_usd : F
  pub savings_percent : F
  pub primary_outcome : String
  pub treatment_outcome : Interval F
  pub control_outcome : Interval F
  pub non_inferiority_delta : F
  pub by_model : Map (ModelSummary F)
  pub by_bucket : Map ℕ
  pub generated_at : Time
