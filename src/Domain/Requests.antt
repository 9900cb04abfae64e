-- ===== src/Domain/Requests.antt =====
-- internal/domain/types.go: the metadata and the features of a request.
use outcome_router.Base.{String, Bool, true, false, [], ◌∷◌, Map}
use outcome_router.Base.Int.{ℤ}
use outcome_router.Double.{Double, ◌⊘◌, zero_float, one_float}
use outcome_router.Domain.Catalog.{Privacy, RiskClass}

pub record RoutingMetadata (F : Type 0) : Type 0 where
  pub trace_id : String
  pub workflow : String
  pub step : String
  pub risk_class : RiskClass
  pub deadline_ms : ℤ
  pub policy_id : String
  pub required_region : String
  pub required_privacy : Privacy
  pub max_cost_usd : F

pub record Features (F : Type 0) : Type 0 where
  pub input_tokens : ℤ
  pub expected_output_tokens : ℤ
  pub message_count : ℤ
  pub tool_count : ℤ
  pub has_vision : Bool
  pub has_structured_output : Bool
  pub risk : F

module _ {F : Type 0} ⦃d : Double F⦄ where
  abbrev pub bool_float : Bool → F
  bool_float true = one_float
  bool_float false = zero_float

  -- The entries in the order of the source. Go visits a map in any order.
  abbrev pub vector : Features F → Map F
  vector f =
      ("input_tokens_k", d.of_int f.input_tokens ⊘ d.decimal 1000 0)
      ∷ ("expected_output_tokens_k", d.of_int f.expected_output_tokens ⊘ d.decimal 1000 0)
      ∷ ("message_count", d.of_int f.message_count)
      ∷ ("tool_count", d.of_int f.tool_count)
      ∷ ("has_vision", bool_float f.has_vision)
      ∷ ("has_structured_output", bool_float f.has_structured_output)
      ∷ ("risk", f.risk)
      ∷ []
