-- ===== src/Routing/Route.antt =====
-- internal/routing/engine.go: `Route`.
pub mod Predictions
pub mod Owner
pub mod Sound
pub mod Unique
pub mod Buckets
pub mod Live
pub mod Total
use outcome_router.Base.{
  ℕ, String, Bool, false, not, ◌&&◌, ◌||◌, Option, none, some, List, [], ◌∷◌, ◌++◌, Map, lookup,
  insert, if◌then◌else◌, ◌==◌, get_or, is_empty, contains, ◌<>◌,
}
use outcome_router.Base.Int.{ℤ, pos}
use outcome_router.Double.{Double, ◌⊕◌, ◌⊖◌, ltf, lef, zero_float}
use outcome_router.Domain.{
  Time, Policy, Prediction, RouteDecision, is_observe, is_shadow, is_canary,
}
use outcome_router.Routing.Feasible.{Request, Engine}
use outcome_router.Routing.Predict.{predict}
use outcome_router.Routing.Select.{prediction_of, candidates_from, cheaper, sort_slice, choose}
use outcome_router.Routing.Hash.{hash_percent}

-- What one call of `Route` takes from its surroundings: Unicode's case folding, the order in which
-- Go visits the map of the features, the clock, and what `newID` returns for a prefix.
pub record Ambient (F : Type 0) : Type 0 where
  pub fold : ℕ → ℕ
  pub visit : Map F → Map F
  pub started : Time
  pub elapsed_micros : ℤ
  pub new_id : String → String

unique_from : List String → List String → List String
unique_from seen [] = []
unique_from seen (value ∷ values) =
    let kept = not (value == "") && not (contains seen value) in
    let rest = unique_from (if kept then value ∷ seen else seen) values in
    if kept then value ∷ rest else rest

unfoldable pub unique : List String → List String
unfolding unique_from
unique values = unique_from [] values

-- The models that `Route` visits.
abbrev pub policy_models : {F : Type 0} → Policy F → List String
policy_models policy =
    unique ((policy.incumbent_model ∷ policy.candidate_models) ++ policy.fallback_models)

abbrev pub Predicted : Type 0 → Type 0
Predicted F = Map (Prediction F) × List String

module _ {F : Type 0} ⦃d : Double F⦄ where
  abbrev pub trace_id_of : Ambient F → Request F → String
  trace_id_of a request =
      if request.metadata.trace_id == "" then a.new_id "trace" else request.metadata.trace_id

  unfoldable pub initial_decision :
      Ambient F → Engine F → String → Policy F → Request F → RouteDecision F
  initial_decision a e tenant_id policy request = record {
    id = a.new_id "dec";
    parent_decision_id = "";
    tenant_id = tenant_id;
    trace_id = trace_id_of a request;
    workflow = request.metadata.workflow;
    step = request.metadata.step;
    risk_class = request.metadata.risk_class;
    policy_id = policy.id;
    policy_version = policy.version;
    snapshot_version = policy.snapshot.version;
    catalog_version = policy.snapshot.catalog_version;
    incumbent_model = policy.incumbent_model;
    selected_model = policy.incumbent_model;
    final_model = "";
    bucket = "incumbent";
    fallback_reason = "";
    feasible_models = [];
    shadow_models = [];
    predictions = [];
    features = request.features;
    estimated_cost_usd = zero_float;
    incumbent_estimated_cost_usd = zero_float;
    actual_cost_usd = zero_float;
    input_tokens = pos 0;
    output_tokens = pos 0;
    routing_latency_micros = pos 0;
    provider_latency_ms = pos 0;
    attempted_models = [];
    upstream_status = pos 0;
    error = "";
    created_at = get_or e.now a.started;
    completed_at = none;
  }

  -- The body of the loop over the models: the map of predictions and the feasible models.
  abbrev predict_one :
      Ambient F → Engine F → Policy F → Request F → String → Predicted F → Predicted F
  predict_one a e policy request model_id (predictions, feasible) =
      elim (lookup model_id e.catalog) [
        | none ↦ (predictions, feasible)
        | some model ↦
            let p = predict a.fold a.visit e policy model request in
            (
              insert model_id p predictions,
              if p.eligible then feasible ++ model_id ∷ [] else feasible,
            )
      ]

  unfoldable pub predict_models :
      Ambient F → Engine F → Policy F → Request F → List String → Predicted F → Predicted F
  predict_models a e policy request [] acc = acc
  predict_models a e policy request (model_id ∷ ids) acc =
      predict_models a e policy request ids (predict_one a e policy request model_id acc)

  eligible_ids : Map (Prediction F) → List String → List String
  eligible_ids predictions [] = []
  eligible_ids predictions (model_id ∷ ids) =
      let rest = eligible_ids predictions ids in
      if (prediction_of predictions model_id).eligible then model_id ∷ rest else rest

  unfoldable pub shadow_candidates : Policy F → Map (Prediction F) → List String
  unfolding eligible_ids
  shadow_candidates policy predictions =
      if lef policy.shadow_budget_usd_per_day zero_float
      then []
      else eligible_ids predictions policy.candidate_models

  abbrev pub finish : Ambient F → RouteDecision F → RouteDecision F
  finish a decision = record decision { routing_latency_micros = a.elapsed_micros }

  -- An early return that leaves the incumbent in place.
  abbrev pub hold : Ambient F → RouteDecision F → String → Option (RouteDecision F)
  hold a decision reason = some (finish a (record decision { fallback_reason = reason }))

  -- The end of `Route`, with the choice made.
  unfoldable pub select :
      Ambient F
      → Policy F
      → RouteDecision F
      → Option (String × Prediction F)
      → Option (RouteDecision F)
  select a policy decision none = none
  select a policy decision (some (bucket, selected)) = some (
      finish a (record decision {
        bucket = bucket;
        selected_model = selected.model_id;
        estimated_cost_usd = selected.estimated_cost_usd;
        fallback_reason =
            (if selected.model_id == policy.incumbent_model
              then "incumbent_is_optimal"
              else decision.fallback_reason);
      }))

  -- From the quality floor on.
  unfoldable pub optimize :
      Ambient F → Policy F → Request F → RouteDecision F → Option (RouteDecision F)
  optimize a policy request decision =
      let incumbent = prediction_of decision.predictions policy.incumbent_model in
      let floor = incumbent.success ⊖ policy.quality_tolerance in
      let candidates = candidates_from policy floor decision.predictions policy.candidate_models in
      if is_empty candidates
      then hold a decision "no_candidate_meets_quality_floor"
      else select a policy decision
          (choose policy request decision.trace_id (sort_slice cheaper candidates))

  -- The randomized control and the canary.
  unfoldable pub allocate :
      Ambient F → Policy F → Request F → RouteDecision F → Option (RouteDecision F)
  allocate a policy request decision =
      let bucket = hash_percent (decision.trace_id <> "|" <> policy.version) in
      if ltf bucket policy.control_percent
      then hold a (record decision { bucket = "control" }) "randomized_control"
      else if is_canary policy.mode && lef (policy.control_percent ⊕ policy.canary_percent) bucket
      then hold a decision "outside_canary"
      else optimize a policy request decision

  -- The decision when every model has its prediction.
  unfoldable pub predicted_decision :
      Ambient F → Engine F → String → Policy F → Request F → RouteDecision F
  predicted_decision a e tenant_id policy request =
      let (predictions, feasible) =
        predict_models a e policy request (policy_models policy) ([], []) in
      let incumbent = prediction_of predictions policy.incumbent_model in
      record (initial_decision a e tenant_id policy request) {
        predictions = predictions;
        feasible_models = feasible;
        estimated_cost_usd = incumbent.estimated_cost_usd;
        incumbent_estimated_cost_usd = incumbent.estimated_cost_usd;
      }

  -- `none` is a panic.
  unfoldable pub route :
      Ambient F → Engine F → String → Policy F → Request F → Option (RouteDecision F)
  route a e tenant_id policy request =
      let decision = predicted_decision a e tenant_id policy request in
      let shadowed = record decision {
        shadow_models = shadow_candidates policy decision.predictions;
      } in
      if policy.drifted
      then hold a decision "policy_drifted"
      else if is_observe policy.mode
      then hold a decision "observe_only"
      else if is_shadow policy.mode
      then hold a shadowed "shadow_only"
      else allocate a policy request shadowed
