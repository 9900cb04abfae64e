-- ===== src/Server/Shadows.antt =====
-- internal/api/server.go: shadow requests and their budget.
pub mod Budget
use outcome_router.Base.{
  ℕ, ◌^◌, ◌*◌, String, Bool, true, false, not, ◌||◌, Option, none, some, List, [], ◌∷◌, Map, lookup,
  insert, get_or, is_empty, if◌then◌else◌, ◌==◌, ◌<>◌, ◌⊎◌, inl, inr,
}
use outcome_router.Base.Int.{ℤ, pos, ltb_ℤ}
use outcome_router.Config.{Provider, Tenant}
use outcome_router.Double.{Double, ◌⊕◌, ltf, zero_float}
use outcome_router.Domain.{
  Time, Model, Policy, Prediction, RouteDecision, RiskClass, high, regulated, any_privacy,
}
use outcome_router.Provider.{Client}
use outcome_router.Provider.Calls.{Answer, responded, gave_up, call, read_limited}
use outcome_router.Routing.Feasible.{Request}
use outcome_router.Routing.Body.{Encoder, body_for_model}
use outcome_router.Routing.Predict.{actual_cost}
use outcome_router.Routing.Select.{prediction_of}
use outcome_router.Server.Attempts.{Moment, call_error}
use outcome_router.Server.Outside.{Repository, Usage, parse_usage, safe_error, upstream_status}

abbrev pub shadow_key : String → String → String → String
shadow_key tenant_id policy_id day = tenant_id <> "|" <> policy_id <> "|" <> day

-- A request that is sent in the background.
pub record ShadowJob (F : Type 0) : Type 0 where
  pub model : Model F
  pub provider : Provider
  pub prediction : Prediction F

abbrev pub is_high_risk : RiskClass → Bool
is_high_risk regulated = true
is_high_risk high = true
is_high_risk _ = false

-- What the background task takes from outside. `usage` decodes the usage of a body.
pub record ShadowSetting : Type 0 where
  pub json : Encoder
  pub moment : Moment
  pub usage : List ℕ → Option Usage
  pub show : ℤ → String
  pub id : String
  pub created : Time
  pub latency_ms : ℤ
  pub completed : Time

module _ {F : Type 0} ⦃d : Double F⦄ where
  abbrev pub spent : Map F → String → F
  spent spend key = get_or (lookup key spend) zero_float

  unfoldable pub reserve_shadow_budget : Map F → String → Policy F → F → Bool × Map F
  reserve_shadow_budget spend key policy estimated_cost =
      let total = spent spend key ⊕ estimated_cost in
      if ltf policy.shadow_budget_usd_per_day total
      then (false, spend)
      else (true, insert key total spend)

  -- What Go reads from the catalog at a missing key.
  abbrev no_model : Model F
  no_model = record {
    id = "";
    provider = "";
    upstream_model = "";
    region = "";
    privacy = any_privacy;
    context_window = pos 0;
    supports_tools = false;
    supports_structured = false;
    supports_vision = false;
    input_cost_per_m_tokens = zero_float;
    output_cost_per_m_tokens = zero_float;
    p95_latency_ms = pos 0;
    quality_prior = zero_float;
    enabled = false;
    version = "";
  }

  abbrev add_job :
      Model F → Prediction F → List (ShadowJob F) → Option Provider → List (ShadowJob F)
  add_job model prediction jobs none = jobs
  add_job model prediction jobs (some provider) =
      record { model = model; provider = provider; prediction = prediction } ∷ jobs

  -- The loop over the shadow models. `day` is the date when a model's turn comes.
  unfoldable pub launch_all :
      Map (Model F)
      → Tenant
      → Policy F
      → RouteDecision F
      → (String → String)
      → List String
      → Map F
      → List (ShadowJob F) × Map F
  launch_all catalog tenant policy parent day [] spend = ([], spend)
  launch_all catalog tenant policy parent day (model_id ∷ ids) spend =
      let prediction = prediction_of parent.predictions model_id in
      let (granted, spend') =
        reserve_shadow_budget spend (shadow_key tenant.id policy.id (day model_id)) policy
          prediction.estimated_cost_usd in
      let model = get_or (lookup model_id catalog) no_model in
      let skipped = model_id == parent.final_model in
      let (jobs, spend'') =
        launch_all catalog tenant policy parent day ids (if skipped then spend else spend') in
      if skipped || not granted
      then (jobs, spend'')
      else (add_job model prediction jobs (lookup model.provider tenant.providers), spend'')

  unfoldable pub launch_shadows :
      Map (Model F)
      → Tenant
      → Policy F
      → RouteDecision F
      → (String → String)
      → Map F
      → List (ShadowJob F) × Map F
  launch_shadows catalog tenant policy parent day spend =
      if is_empty parent.shadow_models || is_high_risk parent.risk_class
      then ([], spend)
      else launch_all catalog tenant policy parent day parent.shadow_models spend

  -- The record of a shadow request before it is sent.
  abbrev pub shadow_decision : RouteDecision F → ShadowJob F → String → Time → RouteDecision F
  shadow_decision parent job id created = record parent {
    id = id;
    parent_decision_id = parent.id;
    selected_model = job.model.id;
    final_model = "";
    bucket = "shadow";
    shadow_models = [];
    attempted_models = job.model.id ∷ [];
    estimated_cost_usd = job.prediction.estimated_cost_usd;
    actual_cost_usd = zero_float;
    created_at = created;
    completed_at = none;
    error = "";
  }

  abbrev shadow_cost : ShadowJob F → ℤ × ℤ → F
  shadow_cost job (input, output) =
      if ltb_ℤ (pos 0) input || ltb_ℤ (pos 0) output
      then actual_cost job.model input output
      else job.prediction.estimated_cost_usd

  abbrev shadow_answered : ShadowSetting → ShadowJob F → RouteDecision F → Answer → RouteDecision F
  shadow_answered s job shadow (gave_up e) = record shadow {
    provider_latency_ms = s.latency_ms;
    error = safe_error s.show (some (call_error e));
    upstream_status = upstream_status (some (call_error e));
    completed_at = some s.completed;
  }
  shadow_answered s job shadow (responded response) =
      let (input, output) = parse_usage (s.usage (read_limited (64 * 2 ^ 20) response).0) in
      record shadow {
        provider_latency_ms = s.latency_ms;
        input_tokens = input;
        output_tokens = output;
        upstream_status = response.status_code;
        final_model = job.model.id;
        actual_cost_usd = shadow_cost job (input, output);
        completed_at = some s.completed;
      }

  abbrev shadow_sent :
      ShadowSetting
      → ShadowJob F
      → Map String
      → Client
      → RouteDecision F
      → String ⊎ List ℕ
      → RouteDecision F × Client
  shadow_sent s job headers client shadow (inl e) = (
    record shadow { error = "unable to encode shadow request"; completed_at = some s.completed },
    client,
  )
  shadow_sent s job headers client shadow (inr body) =
      let (answer, client') =
        call s.moment.http client s.moment.asked s.moment.answered_at job.provider job.model.id body
          headers in
      (shadow_answered s job shadow answer, client')

  -- The background task: one record is saved, whatever happens, and the error of the save is only
  -- logged.
  unfoldable pub run_shadow :
      {S : Type 0}
      → Repository F S
      → ShadowSetting
      → Request F
      → RouteDecision F
      → Map String
      → ShadowJob F
      → Client × S
      → Client × S
  run_shadow repository s request parent headers job (client, store) =
      let (shadow, client') =
        shadow_sent s job headers client (shadow_decision parent job s.id s.created)
          (body_for_model s.json request job.model.upstream_model (some false)) in
      (client', (repository.save_decision shadow store).1)
