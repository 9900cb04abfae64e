-- ===== src/Examples/Routes.antt =====
-- The engine on the inputs of internal/routing/engine_test.go.
use outcome_router.Base.{
  [], ◌∷◌, String, ◌≡◌, refl, ◌⊎◌, true, false, Option, some, arith, lookup, insert, has_key,
  get_or, In, ◌↔◌, ◌<>◌,
}
use outcome_router.Double.Fixed.{Fixed, fixed_double}
use outcome_router.Double.Fixed.Rounded.{Fixed-IsRounded}
use outcome_router.Double.Fixed.Ordered.{Fixed-IsOrdered}
use outcome_router.Domain.{Policy, RouteDecision}
use outcome_router.Routing.Feasible.{
  Request, infeasible_reason, constraint_checks, privacy_satisfies, contains_fold, equal_fold,
}
use outcome_router.Routing.Hash.{hash_percent, hash_millionths}
use outcome_router.Routing.Predict.{
  predict, raw_success, score_of, workflow_score, estimate_cost, clamp,
}
use outcome_router.Routing.Select.{
  sink, sort_slice, qualifies, candidates_from, cheaper, arm_index, choose,
}
use outcome_router.Routing.Route.{
  unique, route, initial_decision, predict_models, predicted_decision, shadow_candidates, select,
  optimize, allocate,
}
use outcome_router.Base.Int.{add_int}
use outcome_router.Domain.{low, is_low, Prediction}
use outcome_router.Double.{ltf, lef, zero_float, ◌⊕◌}
use outcome_router.Routing.Select.Cheapest.{AreComparable, AreComparable-of_All, NoBetter}
use outcome_router.Routing.Route.Sound.{IsRouted, route-IsRouted}
use outcome_router.Routing.Route.Total.{route_total}
use outcome_router.Routing.Route.Live.{live_candidates, route_cheapest, route_exploration}
use outcome_router.Routing.Route.Buckets.{IsLive, control_hash, route_control_iff}
use outcome_router.Provider.{Client, available}
use outcome_router.Examples.World.{decimal, premium, policy, request, engine, ambient}

-- `route` with all that it calls open.
run_route : Policy Fixed → Request Fixed → Option (RouteDecision Fixed)
unfolding route initial_decision predict_models predicted_decision shadow_candidates select optimize
    allocate unique infeasible_reason constraint_checks privacy_satisfies contains_fold equal_fold
    hash_percent hash_millionths predict raw_success score_of workflow_score estimate_cost clamp
    sink sort_slice qualifies candidates_from cheaper arm_index choose lookup insert has_key add_int
run_route = route ambient engine "tenant"

abbrev pub decision_of : Policy Fixed → Request Fixed → RouteDecision Fixed
decision_of p r =
    get_or (route ambient engine "tenant" p r) (initial_decision ambient engine "tenant" p r)

abbrev choice_of : Policy Fixed → Request Fixed → String × String × String
choice_of p r = let d = decision_of p r in (d.selected_model, d.bucket, d.fallback_reason)

-- TestRouteSelectsCheapestModelAboveQualityFloor
selects_balanced : choice_of policy request ≡ ("balanced", "treatment", "")
unfolding run_route
selects_balanced = refl

pub treated-route : route ambient engine "tenant" policy request ≡ some (decision_of policy request)
unfolding run_route
treated-route = refl

-- A breaker whose open period for the provider is over.
abbrev pub tired_client : Client
tired_client = record { circuits = ("p", record { failures = 3; open_until = 5 }) ∷ [] }

-- The same decision of an engine that asks the breaker.
pub asked-route :
    route ambient
      (record engine { health = some (λ provider_id. (available tired_client 1000 provider_id).0) })
      "tenant"
      policy
      request
    ≡ some (decision_of policy request)
unfolding run_route available
asked-route = refl

-- TestRouteDriftFailsClosedToIncumbent
drift_fails_closed :
    choice_of (record policy { drifted = true }) request
    ≡ ("premium", "incumbent", "policy_drifted")
unfolding run_route
drift_fails_closed = refl

-- Every trace is in the control group.
abbrev pub controlled : Policy Fixed
controlled = record policy { control_percent = decimal 100 0 }

controlled-route :
    route ambient engine "tenant" controlled request ≡ some (decision_of controlled request)
unfolding run_route
controlled-route = refl

-- Every trace explores.
abbrev exploring : Policy Fixed
exploring = record policy { exploration_percent = decimal 100 0; quality_tolerance = decimal 2 1 }

abbrev low_risk : Request Fixed
low_risk = record request { metadata = record request.metadata { risk_class = low } }

exploring-route :
    route ambient engine "tenant" exploring low_risk ≡ some (decision_of exploring low_risk)
unfolding run_route
exploring-route = refl

explores : (decision_of exploring low_risk).bucket ≡ "exploration"
unfolding run_route
explores = refl

-- Two candidates clear the floor.
abbrev tolerant : Policy Fixed
tolerant = record policy { quality_tolerance = decimal 2 1 }

tolerant-route :
    route ambient engine "tenant" tolerant request ≡ some (decision_of tolerant request)
unfolding run_route
tolerant-route = refl

selects_economy : choice_of tolerant request ≡ ("economy", "treatment", "")
unfolding run_route
selects_economy = refl

treats : (decision_of tolerant request).bucket ≡ "treatment"
unfolding run_route
treats = refl

comparable : AreComparable (live_candidates ambient engine "tenant" tolerant request)
unfolding run_route
comparable =
    AreComparable-of_All (live_candidates ambient engine "tenant" tolerant request)
      (record { cost = refl; bound = refl }, (record { cost = refl; bound = refl }, tt))
      (ground arith)

route-IsRouted_example :
    ((decision_of policy request).selected_model ≡ "premium")
    ⊎ IsRouted ambient engine policy request
        (predict ambient.fold ambient.visit engine policy premium request).success
        (decision_of policy request)
unfolding lookup
route-IsRouted_example =
    route-IsRouted ambient engine "tenant" policy request (decision_of policy request) premium refl
      refl treated-route

route_total_example :
    (decision : RouteDecision Fixed) × (route ambient engine "tenant" policy request
      ≡ some decision)
route_total_example =
    route_total Fixed-IsRounded ambient engine "tenant" policy request (omega arith)

route_control_iff_example :
    (((decision_of controlled request).bucket ≡ "control") ↔ (
      IsLive ambient engine "tenant" controlled request
      × (ltf (control_hash ambient engine "tenant" controlled request) (decimal 100 0) ≡ true)))
    × ((decision_of controlled request).bucket ≡ "control"
        → (decision_of controlled request).selected_model ≡ "premium")
route_control_iff_example =
    route_control_iff ambient engine "tenant" controlled request (decision_of controlled request)
      controlled-route

route_exploration_example :
    (is_low low ≡ true)
    × (ltf zero_float exploring.exploration_percent ≡ true)
    × (ltf {F = Fixed}
          (hash_percent ("trace-treatment" <> "|explore|" <> "1"))
          exploring.exploration_percent
        ≡ true)
    × IsLive ambient engine "tenant" exploring low_risk
    × (ltf (control_hash ambient engine "tenant" exploring low_risk) exploring.control_percent
        ≡ false)
    × ((false ≡ false)
        ⊎ (lef
              (exploring.control_percent ⊕ exploring.canary_percent)
              (control_hash ambient engine "tenant" exploring low_risk)
            ≡ false))
route_exploration_example =
    route_exploration ambient engine "tenant" exploring low_risk (decision_of exploring low_risk)
      exploring-route explores

route_cheapest_example :
    (selected : Prediction Fixed) × In selected
      (live_candidates ambient engine "tenant" tolerant request)
    × ((decision_of tolerant request).selected_model ≡ selected.model_id)
    × ((decision_of tolerant request).estimated_cost_usd ≡ selected.estimated_cost_usd)
    × ((p : Prediction Fixed)
        → In p (live_candidates ambient engine "tenant" tolerant request)
        → NoBetter p selected)
route_cheapest_example =
    route_cheapest ambient engine "tenant" tolerant request Fixed-IsOrdered
      (decision_of tolerant request) comparable tolerant-route treats
