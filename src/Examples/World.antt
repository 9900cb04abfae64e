-- ===== src/Examples/World.antt =====
-- The catalog, the policy and the requests of internal/routing/engine_test.go, in fixed point.
use outcome_router.Base.{ℕ, true, false, none, [], ◌∷◌, Map}
use outcome_router.Base.Int.{pos}
use outcome_router.Double.Fixed.{Fixed, fixed_double}
use outcome_router.Domain.{
  active, any_privacy, standard, zdr, normal, Model, ModelScore, Snapshot, Policy,
}
use outcome_router.Routing.Feasible.{Request, Engine}
use outcome_router.Routing.Route.{Ambient}

abbrev pub decimal : ℕ → ℕ → Fixed
decimal n k = fixed_double.decimal n k

abbrev pub premium : Model Fixed
premium = record {
  id = "premium";
  provider = "p";
  upstream_model = "upstream-premium";
  region = "us-east";
  privacy = zdr;
  context_window = pos 128000;
  supports_tools = true;
  supports_structured = true;
  supports_vision = true;
  input_cost_per_m_tokens = decimal 5 0;
  output_cost_per_m_tokens = decimal 20 0;
  p95_latency_ms = pos 1000;
  quality_prior = decimal 92 2;
  enabled = true;
  version = "1";
}

abbrev pub balanced : Model Fixed
balanced = record premium {
  id = "balanced";
  upstream_model = "upstream-balanced";
  input_cost_per_m_tokens = decimal 1 0;
  output_cost_per_m_tokens = decimal 4 0;
  p95_latency_ms = pos 700;
  quality_prior = decimal 91 2;
}

abbrev pub economy : Model Fixed
economy = record premium {
  id = "economy";
  upstream_model = "upstream-economy";
  privacy = standard;
  context_window = pos 16000;
  supports_tools = false;
  supports_vision = false;
  input_cost_per_m_tokens = decimal 2 1;
  output_cost_per_m_tokens = decimal 8 1;
  p95_latency_ms = pos 400;
  quality_prior = decimal 85 2;
}

abbrev pub catalog : Map (Model Fixed)
catalog = ("premium", premium) ∷ ("balanced", balanced) ∷ ("economy", economy) ∷ []

abbrev score : ℕ → ℕ → ModelScore Fixed
score percent per_mille = record {
  success_rate = decimal percent 2;
  uncertainty = decimal per_mille 3;
  samples = pos 1000;
  weights = [];
  bias = decimal 0 0;
}

abbrev pub snapshot : Snapshot Fixed
snapshot = record {
  version = "snapshot";
  catalog_version = "catalog";
  trained_at = 1;
  global = ("premium", score 92 4) ∷ ("balanced", score 91 5) ∷ ("economy", score 85 10) ∷ [];
  by_workflow = [];
}

abbrev pub policy : Policy Fixed
policy = record {
  id = "policy";
  tenant_id = "tenant";
  version = "1";
  mode = active;
  incumbent_model = "premium";
  candidate_models = "balanced" ∷ "economy" ∷ [];
  fallback_models = [];
  quality_tolerance = decimal 3 2;
  confidence_z = decimal 1645 3;
  minimum_samples = pos 100;
  control_percent = decimal 0 0;
  canary_percent = decimal 0 0;
  exploration_percent = decimal 0 0;
  shadow_budget_usd_per_day = decimal 0 0;
  primary_outcome = "resolution";
  constraints = record {
    allowed_regions = [];
    required_privacy = any_privacy;
    max_estimated_cost_usd = decimal 0 0;
    max_p95_latency_ms = pos 2000;
  };
  snapshot = snapshot;
  drifted = false;
  created_at = 0;
}

abbrev pub request : Request Fixed
request = record {
  raw = ("model", "\"auto\"") ∷ [];
  metadata = record {
    trace_id = "trace-treatment";
    workflow = "support";
    step = "draft";
    risk_class = normal;
    deadline_ms = pos 0;
    policy_id = "";
    required_region = "";
    required_privacy = any_privacy;
    max_cost_usd = decimal 0 0;
  };
  features = record {
    input_tokens = pos 14;
    expected_output_tokens = pos 512;
    message_count = pos 1;
    tool_count = pos 0;
    has_vision = false;
    has_structured_output = false;
    risk = decimal 35 2;
  };
  requested_model = "auto";
  stream = false;
}

abbrev pub engine : Engine Fixed
engine = record { catalog = catalog; health = none; now = none }

abbrev pub ambient : Ambient Fixed
ambient = record {
  fold = λ c. c;
  visit = λ m. m;
  started = 1000;
  elapsed_micros = pos 25;
  new_id = λ prefix. prefix;
}
