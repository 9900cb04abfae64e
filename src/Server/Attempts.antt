-- ===== src/Server/Attempts.antt =====
-- internal/api/server.go: the loop of `chatCompletions` over the models to try.
pub mod Allowed
pub mod Exhausted
use outcome_router.Base.{
  ℕ, String, Bool, true, false, not, Option, none, some, List, [], ◌∷◌, ◌++◌, Map, lookup, length,
  ◌⊎◌, inl, inr, if◌then◌else◌,
}
use outcome_router.Config.{Provider, Tenant}
use outcome_router.Domain.{Time, Model, Prediction}
use outcome_router.Provider.{Client}
use outcome_router.Provider.Calls.{
  Http, Response, CallError, Answer, responded, gave_up, retryable, call,
}
use outcome_router.Routing.Feasible.{Request}
use outcome_router.Routing.Body.{Encoder, body_for_model}
use outcome_router.Routing.Route.{unique}

-- `buildAttemptOrder`, which keeps what `unique` of the engine keeps.
abbrev pub build_attempt_order : String → List String → String → List String
build_attempt_order selected fallbacks incumbent =
    unique (((selected ∷ []) ++ fallbacks) ++ incumbent ∷ [])

-- The network and the clock at one call.
pub record Moment : Type 0 where
  pub http : Http
  pub asked : Time
  pub answered_at : Time

pub data AttemptError : Type 0 where
  provider_missing : String → AttemptError
  body_error : String → AttemptError
  call_error : CallError → AttemptError

-- What one request brings to the loop. `moment n` is that of the call after `n` others.
pub record Setting (F : Type 0) : Type 0 where
  pub json : Encoder
  pub catalog : Map (Model F)
  pub tenant : Tenant
  pub request : Request F
  pub headers : Map String
  pub predictions : Map (Prediction F)
  pub moment : ℕ → Moment

-- The variables of the loop.
pub record Attempts (F : Type 0) : Type 0 where
  pub attempted : List String
  pub client : Client
  pub last_error : Option AttemptError
  pub response : Option (Model F × Response)

pub data Progress (F : Type 0) : Type 0 where
  continue : Attempts F → Progress F
  break : Attempts F → Progress F

module _ {F : Type 0} where
  -- A model with a prediction that is not eligible is skipped; one without a prediction is not.
  abbrev pub is_skipped : Option (Prediction F) → Bool
  is_skipped none = false
  is_skipped (some p) = not p.eligible

  abbrev conclude : Model F → Attempts F → Answer × Client → Progress F
  conclude model st (responded response, client) =
      break (record st { client = client; last_error = none; response = some (model, response) })
  conclude model st (gave_up e, client) =
      let st' = record st { client = client; last_error = some (call_error e) } in
      if retryable e then continue st' else break st'

  abbrev pub call_model : Setting F → Provider → Model F → String → List ℕ → Attempts F → Progress F
  call_model s provider model model_id body st =
      let at = s.moment (length st.attempted) in
      conclude model (record st { attempted = st.attempted ++ model_id ∷ [] })
        (call at.http st.client at.asked at.answered_at provider model.id body s.headers)

  abbrev send_body :
      Setting F → Provider → Model F → String → Attempts F → String ⊎ List ℕ → Progress F
  send_body s provider model model_id st (inl e) =
      break (record st { last_error = some (body_error e) })
  send_body s provider model model_id st (inr body) = call_model s provider model model_id body st

  abbrev try_provider : Setting F → Model F → String → Attempts F → Option Provider → Progress F
  try_provider s model model_id st none =
      continue (record st { last_error = some (provider_missing model.provider) })
  try_provider s model model_id st (some provider) =
      send_body s provider model model_id st
        (body_for_model s.json s.request model.upstream_model none)

  abbrev try_model : Setting F → String → Attempts F → Option (Model F) → Progress F
  try_model s model_id st none = continue st
  try_model s model_id st (some model) =
      try_provider s model model_id st (lookup model.provider s.tenant.providers)

  -- The body of the loop.
  unfoldable pub attempt : Setting F → String → Attempts F → Progress F
  attempt s model_id st =
      if is_skipped (lookup model_id s.predictions)
      then continue st
      else try_model s model_id st (lookup model_id s.catalog)

  unfoldable pub attempt_all : Setting F → List String → Attempts F → Attempts F
  attempt_all s [] st = st
  attempt_all s (model_id ∷ ids) st = elim (attempt s model_id st) [
    | continue st' ↦ attempt_all s ids st'
    | break st' ↦ st'
  ]

  abbrev pub no_attempts : Client → Attempts F
  no_attempts client = record {
    attempted = [];
    client = client;
    last_error = none;
    response = none;
  }
