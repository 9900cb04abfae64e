-- ===== src/Domain/Catalog.antt =====
-- internal/domain/types.go: the string types with their constants, the model and the policy's
-- constraints. A string type is its constants, the empty text and any other text.
use outcome_router.Base.{String, Bool, true, false, List}
use outcome_router.Base.Int.{ℤ}

pub data Mode : Type 0 where
  observe shadow canary active : Mode
  other_mode : String → Mode

pub data Privacy : Type 0 where
  any_privacy standard zdr local : Privacy
  other_privacy : String → Privacy

pub data RiskClass : Type 0 where
  any_risk low normal high regulated : RiskClass
  other_risk : String → RiskClass

abbrev pub is_observe : Mode → Bool
is_observe observe = true
is_observe _ = false

abbrev pub is_shadow : Mode → Bool
is_shadow shadow = true
is_shadow _ = false

abbrev pub is_canary : Mode → Bool
is_canary canary = true
is_canary _ = false

abbrev pub is_low : RiskClass → Bool
is_low low = true
is_low _ = false

-- The empty text, of a field that is left out.
abbrev pub is_unset : Privacy → Bool
is_unset any_privacy = true
is_unset _ = false

pub record Model (F : Type 0) : Type 0 where
  pub id : String
  pub provider : String
  pub upstream_model : String
  pub region : String
  pub privacy : Privacy
  pub context_window : ℤ
  pub supports_tools : Bool
  pub supports_structured : Bool
  pub supports_vision : Bool
  pub input_cost_per_m_tokens : F
  pub output_cost_per_m_tokens : F
  pub p95_latency_ms : ℤ
  pub quality_prior : F
  pub enabled : Bool
  pub version : String

pub record PolicyConstraints (F : Type 0) : Type 0 where
  pub allowed_regions : List String
  pub required_privacy : Privacy
  pub max_estimated_cost_usd : F
  pub max_p95_latency_ms : ℤ
