-- ===== src/Store/Tally.antt =====
-- internal/store/store.go: the loop of `summarize` over the decisions.
pub mod Groups
use outcome_router.Base.{
  ℕ, ◌+◌, String, Bool, true, false, not, ◌&&◌, ◌||◌, Option, none, some, List, [], ◌∷◌, Map,
  lookup, insert, get_or, has_key, if◌then◌else◌, ◌==◌, ltb,
}
use outcome_router.Double.{Double, ◌⊕◌, lef, zero_float}
use outcome_router.Domain.{Time, RouteDecision, ModelSummary}

-- The variables of the loop: the fields of the summary that it sets, the decisions by id, and the
-- group of each trace.
pub record Tally (F : Type 0) : Type 0 where
  pub requests : ℕ
  pub routed_requests : ℕ
  pub control_requests : ℕ
  pub shadow_requests : ℕ
  pub actual_cost_usd : F
  pub estimated_cost_usd : F
  pub incumbent_cost_usd : F
  pub by_model : Map (ModelSummary F)
  pub by_bucket : Map ℕ
  pub decisions : Map (RouteDecision F)
  pub trace_buckets : Map String

-- What the summary is asked for. The empty policy id stands for every policy.
pub record Query : Type 0 where
  pub tenant_id : String
  pub policy_id : String
  pub since : Time

abbrev pub one_if : Bool → ℕ
one_if true = 1
one_if false = 0

module _ {F : Type 0} where
  -- A decision that the loop does not skip.
  abbrev pub is_counted : Query → RouteDecision F → Bool
  is_counted q decision =
      decision.tenant_id == q.tenant_id
      && not (ltb decision.created_at q.since)
      && (q.policy_id == "" || decision.policy_id == q.policy_id)

  abbrev pub is_shadow_decision : RouteDecision F → Bool
  is_shadow_decision decision = decision.bucket == "shadow"

  abbrev pub is_treated : RouteDecision F → Bool
  is_treated decision = decision.bucket == "treatment" || decision.bucket == "exploration"

  abbrev pub group_trace : RouteDecision F → Map String → Map String
  group_trace decision groups =
      if is_treated decision
      then insert decision.trace_id "treatment" groups
      else if has_key decision.trace_id groups
      then groups
      else insert decision.trace_id "control" groups

  abbrev pub model_of : RouteDecision F → String
  model_of decision =
      if decision.final_model == "" then decision.selected_model else decision.final_model

module _ {F : Type 0} ⦃d : Double F⦄ where
  abbrev pub no_summary : ModelSummary F
  no_summary = record {
    requests = 0;
    cost_usd = zero_float;
    successes = zero_float;
    outcomes = 0;
    success_rate = zero_float;
  }

  abbrev pub no_tally : Tally F
  no_tally = record {
    requests = 0;
    routed_requests = 0;
    control_requests = 0;
    shadow_requests = 0;
    actual_cost_usd = zero_float;
    estimated_cost_usd = zero_float;
    incumbent_cost_usd = zero_float;
    by_model = [];
    by_bucket = [];
    decisions = [];
    trace_buckets = [];
  }

  -- The cost that is counted: the estimate where there is no positive actual cost.
  abbrev pub cost_of : RouteDecision F → F
  cost_of decision =
      if lef decision.actual_cost_usd zero_float
      then decision.estimated_cost_usd
      else decision.actual_cost_usd

  abbrev pub add_model : RouteDecision F → Map (ModelSummary F) → Map (ModelSummary F)
  add_model decision models =
      let model = get_or (lookup (model_of decision) models) no_summary in
      insert (model_of decision)
        (record model {
          requests = model.requests + 1;
          cost_usd = model.cost_usd ⊕ cost_of decision;
        })
        models

  -- The part for every counted decision.
  abbrev note : RouteDecision F → Tally F → Tally F
  note decision t = record t {
    decisions = insert decision.id decision t.decisions;
    by_bucket =
        insert decision.bucket (get_or (lookup decision.bucket t.by_bucket) 0 + 1) t.by_bucket;
  }

  -- The part for a counted decision that is no shadow.
  abbrev count_request : RouteDecision F → Tally F → Tally F
  count_request decision t = record t {
    requests = t.requests + 1;
    control_requests = t.control_requests + one_if (decision.bucket == "control");
    routed_requests =
        t.routed_requests + one_if (not (decision.selected_model == decision.incumbent_model));
    actual_cost_usd = t.actual_cost_usd ⊕ cost_of decision;
    estimated_cost_usd = t.estimated_cost_usd ⊕ decision.estimated_cost_usd;
    incumbent_cost_usd = t.incumbent_cost_usd ⊕ decision.incumbent_estimated_cost_usd;
    by_model = add_model decision t.by_model;
    trace_buckets = group_trace decision t.trace_buckets;
  }

  -- One turn of the loop.
  unfoldable pub tally_one : Query → RouteDecision F → Tally F → Tally F
  tally_one q decision t =
      if not (is_counted q decision)
      then t
      else if is_shadow_decision decision
      then record (note decision t) { shadow_requests = t.shadow_requests + 1 }
      else count_request decision (note decision t)

  unfoldable pub tally : Query → List (RouteDecision F) → Tally F → Tally F
  tally q [] t = t
  tally q (decision ∷ decisions) t = tally q decisions (tally_one q decision t)
