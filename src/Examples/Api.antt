-- ===== src/Examples/Api.antt =====
-- Requests to the whole server over the file store.
use outcome_router.Base.{
  ◌≡◌, ◌⊎◌, refl, String, false, none, some, List, [], ◌∷◌, lookup, insert, In, inl, arith,
}
use outcome_router.Base.Int.{pos}
use outcome_router.Config.Access.{authenticate, token_of, find_tenant}
use outcome_router.Double.Fixed.{Fixed, fixed_double}
use outcome_router.Domain.{RouteDecision}
use outcome_router.Domain.Validate.Accepts.{IsOrderOf}
use outcome_router.Provider.{new_client, available, retryable_status, record_failure}
use outcome_router.Provider.Calls.{call, send, receive}
use outcome_router.Routing.Registry.{new_registry}
use outcome_router.Server.Api.{Api, ApiRequest, ApiSetting, authorization_of, serve_http}
use outcome_router.Server.Api.Guarded.{IsPublic, serve_http-IsPublic}
use outcome_router.Server.Attempts.{Setting, Attempts, attempt, attempt_all, no_attempts}
use outcome_router.Server.Attempts.Allowed.{IsCallable}
use outcome_router.Server.Attempts.Exhausted.{is_terminal, attempt_all-exhausts}
use outcome_router.Server.Chat.{World, serve}
use outcome_router.Server.Chat.Audit.{IsAudited}
use outcome_router.Server.Events.{Event, http_request, run_events}
use outcome_router.Server.Events.Registered.{IsRegistered, KeepsTenants, run_events-IsRegistered}
use outcome_router.Server.Reads.{decision, found_decision}
use outcome_router.Server.Reads.Isolated.{serve-decision}
use outcome_router.Store.FileRepository.{FileWorld, file_repository, file_repository-IsStore}
use outcome_router.Store.Files.{save_decision, save_policy}
use outcome_router.Examples.World.{catalog, policy, request, balanced}
use outcome_router.Examples.Routes.{tired_client, asked-route}
use outcome_router.Examples.Serving.{tenant, chat, config, decoder, posted, stamp, setting}
use outcome_router.Examples.Calls.{provider, network, reply_with}
use outcome_router.Domain.Validate.{trim_space}
use outcome_router.Store.Lines.{append_json_line}
use outcome_router.Examples.Stored.{codecs, made, empty_files}

abbrev store : FileWorld Fixed
store = record { files = empty_files; faults = [] }

abbrev world : World Fixed (FileWorld Fixed)
world = record { client = tired_client; store = store; shadow_spend = []; launched = [] }

abbrev server : Api Fixed (FileWorld Fixed)
server = record {
  world = world;
  registry = new_registry catalog (policy ∷ []) (some (file_repository codecs).save_policy);
}

abbrev api_setting : ApiSetting Fixed
api_setting = record {
  chat = chat;
  json = decoder;
  detail = "";
  decode_outcome = λ body. some posted;
  decode_policy = λ body. some policy;
  visit = λ m. m;
  quote = λ s. s;
  stamp = stamp;
}

abbrev stranger : ApiRequest
stranger = record {
  method = "POST";
  segments = "v1" ∷ "policies" ∷ [];
  parameters = [];
  headers = ("Authorization", "Bearer guess") ∷ [];
  body = some [];
}

no_tenant : authenticate config (authorization_of api_setting stranger) ≡ none
unfolding find_tenant token_of trim_space lookup
no_tenant = refl

serve_http-IsPublic_example :
    IsPublic (serve_http (file_repository codecs) config api_setting stranger server).0
    × ((serve_http (file_repository codecs) config api_setting stranger server).1 ≡ server)
serve_http-IsPublic_example =
    serve_http-IsPublic (file_repository codecs) config api_setting stranger server no_tenant refl

known : authenticate config "Bearer key" ≡ some tenant
unfolding find_tenant token_of trim_space
known = refl

-- The store with an outcome of another tenant.
abbrev crowded : FileWorld Fixed
crowded = record store {
  files = record store.files {
    store = record store.files.store {
      outcomes = record posted.outcome { tenant_id = "stranger" } ∷ store.files.store.outcomes;
    };
  };
}

first_saved : ((file_repository codecs).save_decision made store).0 ≡ none
unfolding save_decision append_json_line
first_saved = refl

serve-decision_example :
    (final : RouteDecision Fixed) × IsAudited chat tenant policy request [] made final
      (serve (file_repository codecs) chat tenant policy request [] world).0
    × ((decision
            (file_repository codecs)
            config
            "Bearer key"
            made.id
            (serve (file_repository codecs) chat tenant policy request [] world).1.store
          ≡ found_decision final)
        ⊎ ((e : String) × (((file_repository codecs).save_decision final
                ((file_repository codecs).save_decision made store).1).0
              ≡ some e)
            × (decision
                  (file_repository codecs)
                  config
                  "Bearer key"
                  made.id
                  (serve (file_repository codecs) chat tenant policy request [] world).1.store
                ≡ found_decision made)))
serve-decision_example =
    serve-decision (file_repository codecs) (file_repository-IsStore codecs) config "Bearer key"
      tenant chat policy request [] made world known asked-route first_saved

abbrev new_server : Api Fixed (FileWorld Fixed)
new_server = record server {
  registry = new_registry catalog [] (some (file_repository codecs).save_policy);
}

abbrev events : List (Event Fixed)
events = http_request api_setting stranger ∷ http_request api_setting stranger ∷ []

as_listed-HasOrder : IsOrderOf api_setting.visit
as_listed-HasOrder = record { keeps = λ m x h. h; adds_nothing = λ m x h. h }

new-IsRegistered : IsRegistered new_server.registry
unfolding new_registry lookup
new-IsRegistered key p h = ground arith

run_events-IsRegistered_example :
    IsRegistered (run_events (file_repository codecs) config events new_server).registry
    × KeepsTenants new_server.registry
        (run_events (file_repository codecs) config events new_server).registry
run_events-IsRegistered_example =
    run_events-IsRegistered (file_repository codecs) config events new_server
      (as_listed-HasOrder, (as_listed-HasOrder, tt)) new-IsRegistered

abbrev failing : Setting Fixed
failing = record setting {
  moment = λ n. record { http = network (reply_with (pos 503)); asked = 1; answered_at = 2 };
}

balanced-IsCallable : IsCallable failing "balanced" balanced
unfolding lookup
balanced-IsCallable = record {
  in_catalog = refl;
  provider = provider;
  has_provider = refl;
  is_eligible = λ p h. ground arith;
}

-- Both models are called and answer with status 503.
abbrev failed : Attempts Fixed
failed = attempt_all failing ("balanced" ∷ "premium" ∷ []) (no_attempts new_client)

all_failed : (failed.response ≡ none) × (is_terminal failed.last_error ≡ false)
unfolding attempt_all attempt call available send receive retryable_status record_failure lookup
    insert
all_failed = (refl, refl)

attempt_all-exhausts_example :
    In "balanced"
      (attempt_all failing ("balanced" ∷ "premium" ∷ []) (no_attempts new_client)).attempted
attempt_all-exhausts_example =
    attempt_all-exhausts failing ("balanced" ∷ "premium" ∷ []) (no_attempts new_client) "balanced"
      balanced all_failed.0 all_failed.1 (inl refl) balanced-IsCallable
