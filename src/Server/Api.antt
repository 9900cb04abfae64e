-- ===== src/Server/Api.antt =====
-- internal/api/server.go: the whole server, from `Handler` on, as a step on its state.
pub mod Guarded
use outcome_router.Base.{
  ℕ, ◌*◌, ◌^◌, String, Bool, true, false, Option, none, some, List, [], ◌∷◌, Map, take,
  if◌then◌else◌, ◌==◌,
}
use outcome_router.Base.Int.{ℤ, pos}
use outcome_router.Config.{Config}
use outcome_router.Double.{Double}
use outcome_router.Domain.{Time, Policy}
use outcome_router.Provider.{Client}
use outcome_router.Provider.Calls.{get_header}
use outcome_router.Routing.Parse.{Decoder}
use outcome_router.Routing.Registry.{Registry}
use outcome_router.Server.Chat.{World}
use outcome_router.Server.Handle.{PostedOutcome, Stamp, chat_completions, post_outcome}
use outcome_router.Server.Mux.{
  Endpoint, health_endpoint, chat_endpoint, outcomes_endpoint, decision_endpoint, summary_endpoint,
  policies_endpoint, put_policy_endpoint, patterns, Found, not_found, method_not_allowed, found,
  find_handler,
}
use outcome_router.Server.Outside.{Repository, HttpReply}
use outcome_router.Server.Reads.{ReadReply, health, decision, audit_summary, policies, put_policy}
use outcome_router.Server.Settle.{ChatSetting}
use outcome_router.Server.Shadows.{ShadowJob}

-- The state of the server: `World` and the registry.
pub record Api (F S : Type 0) : Type 0 where
  pub world : World F S
  pub registry : Registry F S

pub record ApiRequest : Type 0 where
  pub method : String
  pub segments : List String
  pub parameters : Map String
  pub headers : Map String
  -- `none` where the body cannot be read.
  pub body : Option (List ℕ)

-- What one request takes from outside: the chat's, the decoders of the other payloads, the order in
-- which Go visits a map, how `%q` prints a text, and the clock.
pub record ApiSetting (F : Type 0) : Type 0 where
  pub chat : ChatSetting F
  pub json : Decoder F
  pub detail : String
  pub decode_outcome : List ℕ → Option (PostedOutcome F)
  pub decode_policy : List ℕ → Option (Policy F)
  pub visit : Map F → Map F
  pub quote : String → String
  pub stamp : Stamp

pub data ApiReply (F : Type 0) : Type 0 where
  written : HttpReply → ApiReply F
  read : ReadReply F → ApiReply F
  no_content no_handler wrong_method : ApiReply F

abbrev decoded : {V : Type 0} → (List ℕ → Option V) → ℕ → Option (List ℕ) → Option V
decoded decode limit none = none
decoded decode limit (some body) = decode (take limit body)

-- The headers of `cors`, which every answer has.
abbrev pub cors_headers : Map String
cors_headers =
    ("Access-Control-Allow-Origin", "*")
    ∷ ("Access-Control-Allow-Headers", "Authorization, Content-Type, X-Outcome-Router-Admin")
    ∷ ("Access-Control-Allow-Methods", "GET, POST, OPTIONS")
    ∷ (
      "Access-Control-Expose-Headers",
      "X-Outcome-Decision-ID, X-Outcome-Model, X-Outcome-Policy-Version, X-Outcome-Fallback-Reason",
    )
    ∷ []

abbrev pub authorization_of : {F : Type 0} → ApiSetting F → ApiRequest → String
authorization_of s request = get_header s.chat.http request.headers "Authorization"

module _ {F S : Type 0} ⦃d : Double F⦄ where
  abbrev chat_step : Registry F S → HttpReply × World F S → ApiReply F × Api F S
  chat_step registry (reply, world) = (written reply, record { world = world; registry = registry })

  abbrev store_step : Api F S → HttpReply × S → ApiReply F × Api F S
  store_step api (reply, store) =
      (written reply, record api { world = record api.world { store = store } })

  abbrev policy_step : Api F S → ReadReply F × Registry F S × S → ApiReply F × Api F S
  policy_step api (reply, registry, store) =
      (read reply, record { world = record api.world { store = store }; registry = registry })

  abbrev pub run_handler :
      Repository F S
      → Config F
      → ApiSetting F
      → ApiRequest
      → Api F S
      → Endpoint
      → ApiReply F × Api F S
  run_handler repository config s request api health_endpoint = (read (health s.stamp.now), api)
  run_handler repository config s request api chat_endpoint = chat_step api.registry (
      chat_completions repository s.chat s.json config api.registry request.headers s.detail
        request.body api.world)
  run_handler repository config s request api outcomes_endpoint = store_step api (
      post_outcome repository s.stamp config (authorization_of s request)
        (decoded s.decode_outcome (2 ^ 20) request.body) api.world.store)
  run_handler repository config s request api (decision_endpoint id) =
      (read (decision repository config (authorization_of s request) id api.world.store), api)
  run_handler repository config s request api summary_endpoint = (
    read (
        audit_summary repository config api.registry (authorization_of s request) request.parameters
          s.stamp.now api.world.store),
    api,
  )
  run_handler repository config s request api policies_endpoint =
      (read (policies config api.registry (authorization_of s request)), api)
  run_handler repository config s request api put_policy_endpoint = policy_step api (
      put_policy s.quote s.visit config api.registry (authorization_of s request) s.stamp.now
        (decoded s.decode_policy (4 * 2 ^ 20) request.body) api.world.store)

  abbrev pub dispatch :
      Repository F S → Config F → ApiSetting F → ApiRequest → Api F S → Found → ApiReply F × Api F S
  dispatch repository config s request api not_found = (no_handler, api)
  dispatch repository config s request api method_not_allowed = (wrong_method, api)
  dispatch repository config s request api (found endpoint) =
      run_handler repository config s request api endpoint

  -- The handler of `Handler`: `cors` answers OPTIONS, the mux takes the rest. Panics are recovered
  -- where they may arise.
  unfoldable pub serve_http :
      Repository F S → Config F → ApiSetting F → ApiRequest → Api F S → ApiReply F × Api F S
  serve_http repository config s request api =
      if request.method == "OPTIONS"
      then (no_content, api)
      else dispatch repository config s request api
          (find_handler patterns request.method request.segments)
