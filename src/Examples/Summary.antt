-- ===== src/Examples/Summary.antt =====
-- Summaries of two decisions of one trace and of their outcomes, over the files and over a database.
use mathlib.Core.Option.{some-injective}
use outcome_router.Base.{
  ◌≡◌, ◌↔◌, refl, some, arith, String, true, not, ◌&&◌, none, List, [], ◌∷◌, lookup, if◌then◌else◌,
  In, is_some, NoneTwice, AllValues, inl, inr, ◌==◌,
}
use outcome_router.Double.Fixed.{Fixed, fixed_double}
use outcome_router.Double.Fixed.Ordered.{Fixed-IsOrdered}
use outcome_router.Double.Fixed.Rounded.{Fixed-IsRounded}
use outcome_router.Double.Fixed.Monotone.{Fixed-IsMonotone}
use outcome_router.Double.{one_float}
use outcome_router.Double.Laws.{Within}
use outcome_router.Domain.{RouteDecision, Outcome, boolean, numeric_value}
use outcome_router.Routing.Route.{initial_decision}
use outcome_router.Store.Files.{Codecs}
use outcome_router.Store.Postgres.{Database, select_outcomes, summary}
use outcome_router.Store.Postgres.Agrees.{scanned, keep_if, summary-agrees}
use outcome_router.Store.Summary.{is_primary, tally_outcomes, summarize}
use outcome_router.Store.Summary.Latest.{latest, point_of, tally_outcomes_lem}
use outcome_router.Store.Summary.Bounds.{IsProportion}
use outcome_router.Store.Summary.Rates.{HasProportion}
use outcome_router.Store.Summary.Proportions.{summarize-IsProportion}
use outcome_router.Store.Summary.Savings.{IsCosted, AreSavings, summarize-AreSavings}
use outcome_router.Store.Summary.Sizes.{count_if, summarize_sizes}
use outcome_router.Store.Tally.{Query, is_counted, tally, no_tally}
use outcome_router.Store.Tally.Groups.{has_treated, has_request}
use outcome_router.Examples.World.{policy, request, ambient, engine}
use outcome_router.Examples.Routes.{decision_of, controlled}
use outcome_router.Examples.Serving.{posted}
use outcome_router.Examples.Stored.{codec_of}

abbrev query : Query
query = record { tenant_id = "tenant"; policy_id = ""; since = 0 }

abbrev saved : List (RouteDecision Fixed)
saved = decision_of policy request ∷ decision_of controlled request ∷ []

abbrev resolved : Outcome Fixed
resolved = record posted.outcome { tenant_id = "tenant"; value = boolean true }

tally_outcomes_lem_example :
    lookup "trace"
      (tally_outcomes query "resolution" []
        (resolved ∷ [])
        (record { by_model = []; primary_by_trace = [] })).primary_by_trace
    ≡ point_of "trace" (latest query "resolution" [] "trace" (resolved ∷ []))
tally_outcomes_lem_example = tally_outcomes_lem query "resolution" [] "trace" (resolved ∷ []) []

summarize_sizes_example :
    (traces : List String) × NoneTwice traces
    × ((trace : String)
        → In trace traces ↔ (
            is_some (
              latest query "resolution"
                (tally query saved no_tally).decisions
                trace
                (resolved ∷ []))
            ≡ true))
    × ((summarize query "resolution" 9 saved (resolved ∷ [])).treatment_outcome.n
        ≡ count_if (λ trace. has_treated query trace saved) traces)
    × ((summarize query "resolution" 9 saved (resolved ∷ [])).control_outcome.n
        ≡ count_if
            (λ trace. not (has_treated query trace saved) && has_request query trace saved)
            traces)
summarize_sizes_example = summarize_sizes query "resolution" 9 saved (resolved ∷ [])

resolved_rated : (value : Fixed) → numeric_value resolved.value ≡ some value → Within 1 value
unfolding numeric_value
resolved_rated value same = rw (← some-injective one_float value same) (refl, refl)

summarize-IsProportion_example :
    IsProportion (summarize query "resolution" 9 saved (resolved ∷ [])).treatment_outcome
    × IsProportion (summarize query "resolution" 9 saved (resolved ∷ [])).control_outcome
    × AllValues HasProportion (summarize query "resolution" 9 saved (resolved ∷ [])).by_model
summarize-IsProportion_example =
    summarize-IsProportion Fixed-IsOrdered Fixed-IsRounded Fixed-IsMonotone refl (refl, refl) query
      "resolution" 9 saved (resolved ∷ []) (omega arith) (resolved_rated, tt)

abbrev first : RouteDecision Fixed
first = initial_decision ambient engine "tenant" policy request

abbrev priced : RouteDecision Fixed
priced = record first {
  estimated_cost_usd = fixed_double.decimal 2 2;
  actual_cost_usd = fixed_double.decimal 1 2;
  incumbent_estimated_cost_usd = fixed_double.decimal 5 2;
}

summarize-AreSavings_example :
    AreSavings (summarize query "resolution" 9 (priced ∷ priced ∷ []) (resolved ∷ []))
summarize-AreSavings_example =
    let costed : IsCosted 1 priced = (refl, refl, (refl, refl)) in
    summarize-AreSavings Fixed-IsOrdered Fixed-IsRounded Fixed-IsMonotone 1 query "resolution" 9
      (priced ∷ priced ∷ []) (resolved ∷ []) (omega arith) (costed, (costed, tt))

-- A database that holds one decision and one outcome.
abbrev database : Database Fixed Unit
database = record {
  exec = λ statement arguments s. (none, s);
  query = λ statement arguments s. inr (record {
    rows =
        (if statement == select_outcomes
          then scanned (λ (o : Outcome Fixed). 123 ∷ 125 ∷ [])
              (keep_if (is_primary query "resolution") (resolved ∷ []))
          else scanned (λ (v : RouteDecision Fixed). 123 ∷ 125 ∷ [])
              (keep_if (is_counted query) (first ∷ [])));
    error = none;
  });
  query_row = λ statement arguments s. inl "no rows";
}

abbrev codecs_of_rows : Codecs Fixed
codecs_of_rows = record {
  decision = codec_of first;
  outcome = codec_of resolved;
  policy = codec_of policy;
}

counted : is_counted query first ≡ true
unfolding initial_decision
counted = refl

summary-agrees_example :
    summary database codecs_of_rows tt query "resolution" 9
    ≡ summarize query "resolution" 9 (first ∷ []) (resolved ∷ [])
summary-agrees_example =
    summary-agrees query database codecs_of_rows tt "resolution" 9 (first ∷ []) (resolved ∷ [])
      (λ v. 123 ∷ 125 ∷ []) (λ v. 123 ∷ 125 ∷ []) (rw counted (refl, tt)) (refl, tt) refl refl
