-- ===== src/Examples/Serving.antt =====
-- Requests that are parsed and served, and what is recorded of them.
use outcome_router.Base.{
  map, insert, String, ◌≡◌, ◌≢◌, refl, ◌⊎◌, inr, true, false, none, some, List, [], ◌∷◌, lookup,
  ◌==◌,
}
use outcome_router.Base.Int.{pos, ◌<ℤ◌}
use outcome_router.Config.{Tenant, Config}
use outcome_router.Config.Access.{authenticate}
use outcome_router.Double.{ltf}
use outcome_router.Double.Fixed.{Fixed, fixed_double}
use outcome_router.Domain.{Policy, normal, no_prediction, RouteDecision, any_risk, null}
use outcome_router.Provider.{new_client}
use outcome_router.Provider.Breaker.{is_available}
use outcome_router.Routing.Body.{Encoder, fields_for_model}
use outcome_router.Routing.Body.Fields.{fields_for_model_lem}
use outcome_router.Routing.Feasible.{Request}
use outcome_router.Routing.Parse.{Decoder, parse_request, no_metadata, request_of}
use outcome_router.Routing.Parse.Accepts.{parse_request_complete}
use outcome_router.Server.Attempts.{Setting, attempt_all, no_attempts}
use outcome_router.Server.Attempts.Allowed.{IsRun, attempt_all-IsRun}
use outcome_router.Server.Outside.{Repository}
use outcome_router.Server.Shadows.{
  ShadowJob, launch_shadows, launch_all, reserve_shadow_budget, spent, is_high_risk,
}
use outcome_router.Server.Shadows.Budget.{IsCharged, jobs_of, add_all, costs_at, launch_shadows_lem}
use outcome_router.Server.Settle.{ChatSetting}
use outcome_router.Server.Chat.{World, routed, serve, audit_unavailable}
use outcome_router.Server.Chat.Asked.{IsAsked}
use outcome_router.Server.Chat.Audit.{IsAudited, serve_lem}
use outcome_router.Server.Handle.{PostedOutcome, Stamp, post_outcome}
use outcome_router.Server.Handle.Outcomes.{IsSaved, post_outcome_lem}
use outcome_router.Store.Summary.{summarize}
use outcome_router.Examples.World.{decimal, catalog, policy, request, engine, ambient}
use outcome_router.Examples.Routes.{decision_of, tired_client, asked-route}
use outcome_router.Examples.Calls.{provider, network, reply_with}

abbrev pub tenant : Tenant
tenant = record {
  id = "tenant";
  router_api_key_env = "";
  router_api_key = "key";
  default_policy_id = "policy";
  providers = ("p", provider) ∷ [];
}

abbrev encoder : Encoder
encoder = record { text = λ s. s; boolean = λ b. "true"; object = λ m. inr (123 ∷ 125 ∷ []) }

-- A body is any bytes, and every value decodes as two messages without content.
abbrev pub decoder : Decoder Fixed
decoder = record {
  object = λ body. some (("messages", "[{},{}]") ∷ []);
  objects = λ raw. some ([] ∷ [] ∷ []);
  array = λ raw. none;
  text = λ raw. none;
  boolean = λ raw. none;
  integer = λ raw. none;
  metadata = λ raw. none;
  lower = λ s. s;
}

fields_for_model_lem_example :
    (lookup "model" (fields_for_model encoder request "up" none) ≡ some "up")
    × (lookup "model" (fields_for_model encoder request "up" (some false)) ≡ some "up")
    × (lookup "stream" (fields_for_model encoder request "up" (some false)) ≡ some "true")
    × ((key : String)
        → ("model" == key) ≡ false
        → (lookup key (fields_for_model encoder request "up" none) ≡ lookup key request.raw)
          × (("stream" == key) ≡ false
              → lookup key (fields_for_model encoder request "up" (some false))
                ≡ lookup key request.raw))
fields_for_model_lem_example = fields_for_model_lem encoder request "up" false

abbrev parsed : Request Fixed
parsed = request_of decoder (("messages", "[{},{}]") ∷ []) ([] ∷ [] ∷ []) (no_metadata decoder)

parses : parse_request decoder (1 ∷ []) ≡ inr parsed
unfolding parse_request lookup
parses = refl

parse_request_complete_example :
    (pos 0 <ℤ parsed.features.message_count)
    × (pos 0 <ℤ parsed.features.expected_output_tokens)
    × ((parsed.metadata.workflow == "") ≡ false)
    × ((parsed.metadata.step == "") ≡ false)
    × (parsed.metadata.risk_class ≢ any_risk)
    × (lookup "routing" parsed.raw ≡ none)
parse_request_complete_example = parse_request_complete decoder (1 ∷ []) parsed parses

abbrev pub setting : Setting Fixed
setting = record {
  json = encoder;
  catalog = catalog;
  tenant = tenant;
  request = request;
  headers = [];
  predictions = [];
  moment = λ n. record { http = network (reply_with (pos 200)); asked = 1; answered_at = 2 };
}

attempt_all-IsRun_example :
    IsRun setting
      ("balanced" ∷ "premium" ∷ [])
      (no_attempts new_client)
      (attempt_all setting ("balanced" ∷ "premium" ∷ []) (no_attempts new_client))
attempt_all-IsRun_example =
    attempt_all-IsRun setting ("balanced" ∷ "premium" ∷ []) (no_attempts new_client) refl

-- A store that keeps the ids of what it saves.
abbrev repository : Repository Fixed (List String)
repository = record {
  save_decision = λ decision ids. (none, decision.id ∷ ids);
  save_outcome = λ outcome ids. (none, outcome.id ∷ ids);
  get_decision = λ ids tenant_id id. none;
  summary = λ ids q primary now. summarize q primary now [] [];
  save_policy = λ p ids. (none, ids);
  load_policies = λ ids. inr [];
}

abbrev pub chat : ChatSetting Fixed
chat = record {
  ambient = ambient;
  engine = engine;
  catalog = catalog;
  json = encoder;
  moment = setting.moment;
  day = λ model_id. "2026-01-01";
  usage = λ body. none;
  show = λ n. "200";
  latency_ms = pos 5;
  completed = 3;
  http = network (reply_with (pos 200));
  copy_failed = false;
}

abbrev idle_world : World Fixed (List String)
idle_world = record { client = tired_client; store = []; shadow_spend = []; launched = [] }

serve_lem_example :
    ((e : String)
      → (repository.save_decision (decision_of policy request) []).0 ≡ some e
      → (serve repository chat tenant policy request [] idle_world ≡ (
        audit_unavailable,
        record (routed chat policy idle_world) {
          store = (repository.save_decision (decision_of policy request) []).1;
        },
      ))
        × ((id : String)
            → IsAsked 1000
                (lookup id tired_client.circuits)
                (lookup id (routed chat policy idle_world).client.circuits))
        × ((id : String)
            → is_available (routed chat policy idle_world).client 1000 id
              ≡ is_available tired_client 1000 id))
    × ((repository.save_decision (decision_of policy request) []).0 ≡ none
        → (final : RouteDecision Fixed) × ((serve repository chat tenant policy request []
              idle_world).1.store
            ≡ (repository.save_decision final
                (repository.save_decision (decision_of policy request) []).1).1)
          × IsAudited chat tenant policy request []
              (decision_of policy request)
              final
              (serve repository chat tenant policy request [] idle_world).0)
serve_lem_example =
    serve_lem chat tenant policy request [] repository (decision_of policy request) idle_world
      asked-route

abbrev budgeted : Policy Fixed
budgeted = record policy { shadow_budget_usd_per_day = decimal 1 0 }

-- An answered decision with two shadow models, one of which answered.
abbrev answered_by : RouteDecision Fixed
answered_by = record (decision_of policy request) {
  final_model = "balanced";
  risk_class = normal;
  shadow_models = "balanced" ∷ "premium" ∷ [];
  predictions =
      ("premium", record no_prediction { model_id = "premium"; estimated_cost_usd = decimal 2 1 })
      ∷ [];
}

launched_premium :
    map
      (λ (job : ShadowJob Fixed). job.model.id)
      (launch_shadows catalog tenant budgeted answered_by chat.day []).0
    ≡ "premium" ∷ []
unfolding launch_shadows launch_all reserve_shadow_budget lookup insert
launched_premium = refl

launch_shadows_lem_example :
    (is_high_risk answered_by.risk_class ≡ true
      → ((launch_shadows catalog tenant budgeted answered_by chat.day []).0 ≡ [])
        × ((launch_shadows catalog tenant budgeted answered_by chat.day []).1 ≡ []))
    × (is_high_risk answered_by.risk_class ≡ false
        → (charged : List String) × IsCharged catalog tenant budgeted answered_by chat.day [] []
            answered_by.shadow_models charged
          × ((launch_shadows catalog tenant budgeted answered_by chat.day []).0
              ≡ jobs_of catalog tenant budgeted answered_by chat.day charged)
          × ((key : String)
              → spent (launch_shadows catalog tenant budgeted answered_by chat.day []).1 key
                ≡ add_all
                    (spent [] key)
                    (costs_at catalog tenant budgeted answered_by chat.day key charged))
          × ((key : String)
              → (spent (launch_shadows catalog tenant budgeted answered_by chat.day []).1 key
                  ≡ spent [] key)
                ⊎ (ltf
                      (decimal 1 0)
                      (spent (launch_shadows catalog tenant budgeted answered_by chat.day []).1 key)
                    ≡ false)))
launch_shadows_lem_example = launch_shadows_lem catalog tenant budgeted answered_by chat.day []

abbrev pub config : Config Fixed
config = record {
  listen_address = ":8080";
  data_directory = "./data";
  admin_key_env = "";
  admin_key = "";
  catalog = catalog;
  policies = policy ∷ [];
  tenants = tenant ∷ [];
}

abbrev pub posted : PostedOutcome Fixed
posted = record {
  outcome = record {
    id = "";
    tenant_id = "someone";
    decision_id = "";
    trace_id = "trace";
    type = "resolution";
    value = null;
    occurred_at = 0;
    metadata = [];
    created_at = 0;
  };
  has_value = true;
}

abbrev pub stamp : Stamp
stamp = record { id = "out_1"; now = 7 }

post_outcome_lem_example :
    ((post_outcome repository stamp config "Bearer key" (some posted) []).1 ≡ [])
    ⊎ ((t : Tenant) × (p : PostedOutcome Fixed) × (authenticate config "Bearer key" ≡ some t)
        × (some posted ≡ some p)
        × IsSaved repository stamp t [] p
            (post_outcome repository stamp config "Bearer key" (some posted) []).1)
post_outcome_lem_example = post_outcome_lem repository stamp config "Bearer key" (some posted) []
