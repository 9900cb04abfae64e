-- ===== src/Store/Summary.antt =====
-- internal/store/store.go: `summarize` behind the loop over the decisions, and `Summary`.
pub mod Latest
pub mod Sizes
pub mod Bounds
pub mod Proportions
pub mod Rates
pub mod Savings
use outcome_router.Base.{
  ℕ, ◌+◌, String, Bool, true, false, not, ◌&&◌, ◌||◌, Option, none, some, List, [], ◌∷◌, Map,
  lookup, insert, values, get_or, if◌then◌else◌, ◌==◌, ltb, nat_eq,
}
use outcome_router.Base.Int.{pos}
use outcome_router.Double.{Double, ◌⊕◌, ◌⊖◌, ◌⊗◌, ◌⊘◌, ltf, zero_float, one_float}
use outcome_router.Domain.{
  Time, RouteDecision, Outcome, numeric_value, ModelSummary, Interval, AuditSummary,
}
use outcome_router.Store.Files.{FileStore}
use outcome_router.Store.Tally.{Query, Tally, model_of, no_summary, no_tally, tally}

-- `outcomePoint`.
pub record OutcomePoint (F : Type 0) : Type 0 where
  pub value : F
  pub trace : String

-- What the loop over the outcomes changes.
pub record OutcomeTally (F : Type 0) : Type 0 where
  pub by_model : Map (ModelSummary F)
  pub primary_by_trace : Map (OutcomePoint F)

-- The two groups of traces.
pub record Groups (F : Type 0) : Type 0 where
  pub treatment_success : F
  pub treatment_n : ℕ
  pub control_success : F
  pub control_n : ℕ

module _ {F : Type 0} where
  -- An outcome that the loop does not skip before its value is read.
  abbrev pub is_primary : Query → String → Outcome F → Bool
  is_primary q primary o =
      o.tenant_id == q.tenant_id && not (ltb o.created_at q.since) && o.type == primary

  -- The decision that an outcome names, among those that were counted.
  abbrev pub decision_named : Map (RouteDecision F) → Outcome F → Option (RouteDecision F)
  decision_named decisions o = if o.decision_id == "" then none else lookup o.decision_id decisions

  abbrev pub trace_named : String → Option (RouteDecision F) → String
  trace_named trace_id none = trace_id
  trace_named trace_id (some decision) = if trace_id == "" then decision.trace_id else trace_id

  -- The trace of an outcome, which may be empty.
  abbrev pub outcome_trace : Map (RouteDecision F) → Outcome F → String
  outcome_trace decisions o = trace_named o.trace_id (decision_named decisions o)

  abbrev add_point : String → F → Map (OutcomePoint F) → Map (OutcomePoint F)
  add_point trace_id value points =
      if trace_id == ""
      then points
      else insert trace_id (record { value = value; trace = trace_id }) points

module _ {F : Type 0} ⦃d : Double F⦄ where
  abbrev pub add_success :
      F → Option (RouteDecision F) → Map (ModelSummary F) → Map (ModelSummary F)
  add_success value none models = models
  add_success value (some decision) models =
      let model = get_or (lookup (model_of decision) models) no_summary in
      insert (model_of decision)
        (record model { successes = model.successes ⊕ value; outcomes = model.outcomes + 1 }) models

  -- An outcome whose value is a number.
  abbrev add_outcome :
      Map (RouteDecision F) → Outcome F → Option F → OutcomeTally F → OutcomeTally F
  add_outcome decisions o none t = t
  add_outcome decisions o (some value) t = record {
    by_model = add_success value (decision_named decisions o) t.by_model;
    primary_by_trace = add_point (outcome_trace decisions o) value t.primary_by_trace;
  }

  -- One turn of the loop over the outcomes.
  unfoldable pub tally_outcome :
      Query → String → Map (RouteDecision F) → Outcome F → OutcomeTally F → OutcomeTally F
  tally_outcome q primary decisions o t =
      if is_primary q primary o then add_outcome decisions o (numeric_value o.value) t else t

  unfoldable pub tally_outcomes :
      Query → String → Map (RouteDecision F) → List (Outcome F) → OutcomeTally F → OutcomeTally F
  tally_outcomes q primary decisions [] t = t
  tally_outcomes q primary decisions (o ∷ outcomes) t =
      tally_outcomes q primary decisions outcomes (tally_outcome q primary decisions o t)

  abbrev pub no_groups : Groups F
  no_groups = record {
    treatment_success = zero_float;
    treatment_n = 0;
    control_success = zero_float;
    control_n = 0;
  }

  -- The switch on the group of a trace.
  abbrev pub add_to_group : String → F → Groups F → Groups F
  add_to_group group value g =
      if group == "treatment"
      then record g {
        treatment_success = g.treatment_success ⊕ value;
        treatment_n = g.treatment_n + 1;
      }
      else if group == "control"
      then record g { control_success = g.control_success ⊕ value; control_n = g.control_n + 1 }
      else g

  -- The loop over the points, in some order: Go's is its own.
  unfoldable pub group_points : Map String → Map (OutcomePoint F) → Groups F → Groups F
  group_points buckets [] g = g
  group_points buckets ((trace_id, point) ∷ points) g =
      group_points buckets points (add_to_group (get_or (lookup trace_id buckets) "") point.value g)

  -- `wilson`.
  unfoldable pub wilson : F → ℕ → F → Interval F
  wilson successes n z =
      let size = d.of_int (pos n) in
      let proportion = successes ⊘ size in
      let denominator = one_float ⊕ z ⊗ z ⊘ size in
      let center = (proportion ⊕ z ⊗ z ⊘ (d.decimal 2 0 ⊗ size)) ⊘ denominator in
      let margin =
        z
        ⊗ d.sqrt ((proportion ⊗ (one_float ⊖ proportion) ⊕ z ⊗ z ⊘ (d.decimal 4 0 ⊗ size)) ⊘ size)
        ⊘ denominator in
      if nat_eq n 0
      then record { estimate = zero_float; lower = zero_float; upper = zero_float; n = 0 }
      else record {
        estimate = proportion;
        lower = d.max zero_float (center ⊖ margin);
        upper = d.min one_float (center ⊕ margin);
        n = n;
      }

  -- The last loop, which sets the rates.
  abbrev pub with_rate : ModelSummary F → ModelSummary F
  with_rate model =
      if nat_eq model.outcomes 0
      then model
      else record model { success_rate = model.successes ⊘ d.of_int (pos model.outcomes) }

  unfoldable pub with_rates : Map (ModelSummary F) → Map (ModelSummary F)
  with_rates [] = []
  with_rates ((id, model) ∷ models) = (id, with_rate model) ∷ with_rates models

  -- The fields from the two loops and the groups on.
  abbrev summary_of : Query → String → Time → Tally F → OutcomeTally F → Groups F → AuditSummary F
  summary_of q primary now t o g =
      let treatment = wilson g.treatment_success g.treatment_n (d.decimal 196 2) in
      let control = wilson g.control_success g.control_n (d.decimal 196 2) in
      let savings = d.max zero_float (t.incumbent_cost_usd ⊖ t.actual_cost_usd) in
      record {
        tenant_id = q.tenant_id;
        policy_id = q.policy_id;
        since = q.since;
        requests = t.requests;
        routed_requests = t.routed_requests;
        control_requests = t.control_requests;
        shadow_requests = t.shadow_requests;
        actual_cost_usd = t.actual_cost_usd;
        estimated_cost_usd = t.estimated_cost_usd;
        incumbent_cost_usd = t.incumbent_cost_usd;
        verified_gross_savings_usd = savings;
        savings_percent =
            (if ltf zero_float t.incumbent_cost_usd
              then savings ⊘ t.incumbent_cost_usd ⊗ d.decimal 100 0
              else zero_float);
        primary_outcome = primary;
        treatment_outcome = treatment;
        control_outcome = control;
        non_inferiority_delta = treatment.estimate ⊖ control.estimate;
        by_model = with_rates o.by_model;
        by_bucket = t.by_bucket;
        generated_at = now;
      }

  -- `summarize`.
  unfoldable pub summarize :
      Query → String → Time → List (RouteDecision F) → List (Outcome F) → AuditSummary F
  unfolding with_rates
  summarize q primary now decisions outcomes =
      let t = tally q decisions no_tally in
      let o =
        tally_outcomes q primary t.decisions outcomes
          (record { by_model = t.by_model; primary_by_trace = [] }) in
      summary_of q primary now t o (group_points t.trace_buckets o.primary_by_trace no_groups)

  -- `Summary` of the file store. The order of the decisions is that of a map in Go.
  unfoldable pub summary : FileStore F → Query → String → Time → AuditSummary F
  summary store q primary now = summarize q primary now (values store.decisions) store.outcomes
