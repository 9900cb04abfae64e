-- ===== src/Server/Events.antt =====
-- internal/api/server.go: requests and background tasks in any order. Each handler and each task is
-- one step here; what they share is behind mutexes.
pub mod Registered
use outcome_router.Base.{ℕ, String, List, [], ◌∷◌, Map}
use outcome_router.Config.{Config}
use outcome_router.Double.{Double}
use outcome_router.Domain.{RouteDecision}
use outcome_router.Provider.{Client}
use outcome_router.Routing.Feasible.{Request}
use outcome_router.Server.Api.{Api, ApiRequest, ApiSetting, serve_http}
use outcome_router.Server.Chat.{World}
use outcome_router.Server.Outside.{Repository}
use outcome_router.Server.Shadows.{ShadowSetting, ShadowJob, run_shadow}

-- The end of a background task, with the decision, the headers and the request that it is for.
pub record ShadowTask (F : Type 0) : Type 0 where
  pub setting : ShadowSetting
  pub request : Request F
  pub parent : RouteDecision F
  pub headers : Map String
  pub job : ShadowJob F

pub data Event (F : Type 0) : Type 0 where
  http_request : ApiSetting F → ApiRequest → Event F
  shadow_task : ShadowTask F → Event F

module _ {F S : Type 0} ⦃d : Double F⦄ (repository : Repository F S) (config : Config F) where
  abbrev after_task : Api F S → Client × S → Api F S
  after_task api (client, store) = record api {
    world = record api.world { client = client; store = store };
  }

  unfoldable pub step : Event F → Api F S → Api F S
  step (http_request s request) api = (serve_http repository config s request api).1
  step (shadow_task t) api = after_task api (
      run_shadow repository t.setting t.request t.parent t.headers t.job
        (api.world.client, api.world.store))

  unfoldable pub run_events : List (Event F) → Api F S → Api F S
  unfolding step
  run_events [] api = api
  run_events (event ∷ events) api = run_events events (step event api)
