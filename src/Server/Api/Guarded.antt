-- ===== src/Server/Api/Guarded.antt =====
-- What a request without a key may do.
use outcome_router.Base.{◌≡◌, refl, false, none, ◌==◌, Bool-cases, inl, inr}
use outcome_router.Base.Int.{pos}
use outcome_router.Config.{Config}
use outcome_router.Config.Access.{authenticate, authenticate_admin}
use outcome_router.Double.{Double}
use outcome_router.Server.Handle.{chat_completions, post_outcome}
use outcome_router.Server.Mux.{
  Endpoint, health_endpoint, chat_endpoint, outcomes_endpoint, decision_endpoint, summary_endpoint,
  policies_endpoint, put_policy_endpoint, patterns, Found, not_found, method_not_allowed, found,
  find_handler,
}
use outcome_router.Server.Outside.{Repository}
use outcome_router.Server.Reads.{refused, healthy, decision, audit_summary, policies, put_policy}
use outcome_router.Server.Api.{
  Api, ApiRequest, ApiSetting, ApiReply, written, read, no_content, no_handler, wrong_method,
  authorization_of, run_handler, dispatch, serve_http,
}

-- An answer that shows nothing of a tenant: a refusal with status 401, the health of the server, or
-- none of the handlers.
abbrev pub IsPublic : {F : Type 0} → ApiReply F → Type 0
IsPublic (written reply) = reply.status ≡ pos 401
IsPublic (read (refused reply)) = reply.status ≡ pos 401
IsPublic (read (healthy now)) = Unit
IsPublic (read shown) = ⊥
IsPublic no_content = Unit
IsPublic no_handler = Unit
IsPublic wrong_method = Unit

module _ {F S : Type 0} ⦃d : Double F⦄ (repository : Repository F S) (config : Config F)
    (s : ApiSetting F) (request : ApiRequest) (api : Api F S)
    (no_tenant : authenticate config (authorization_of s request) ≡ none)
    (no_admin : authenticate_admin config (authorization_of s request) ≡ false) where
  abbrev IsHarmless : ApiReply F × Api F S → Type 0
  IsHarmless (reply, after) = IsPublic reply × (after ≡ api)

  run_handler-IsHarmless :
      (endpoint : Endpoint) → IsHarmless (run_handler repository config s request api endpoint)
  unfolding chat_completions post_outcome decision audit_summary policies put_policy
  run_handler-IsHarmless health_endpoint = (tt, refl)
  run_handler-IsHarmless chat_endpoint = rw no_tenant (refl, refl)
  run_handler-IsHarmless outcomes_endpoint = rw no_tenant (refl, refl)
  run_handler-IsHarmless (decision_endpoint id) = rw no_tenant (refl, refl)
  run_handler-IsHarmless summary_endpoint = rw no_tenant (refl, refl)
  run_handler-IsHarmless policies_endpoint = rw no_tenant (refl, refl)
  run_handler-IsHarmless put_policy_endpoint = rw no_admin (refl, refl)

  dispatch-IsHarmless :
      (handler : Found) → IsHarmless (dispatch repository config s request api handler)
  dispatch-IsHarmless not_found = (tt, refl)
  dispatch-IsHarmless method_not_allowed = (tt, refl)
  dispatch-IsHarmless (found endpoint) = run_handler-IsHarmless endpoint

-- A request whose Authorization header has neither a tenant's key nor the administrator's changes
-- nothing in the server or the store, whatever its method, path and body, and is answered with 401,
-- with the health of the server, or by none of the handlers.
pub serve_http-IsPublic :
    {F S : Type 0} ⦃d : Double F⦄ (repository : Repository F S) (config : Config F)
    (s : ApiSetting F) (request : ApiRequest) (api : Api F S)
    → authenticate config (authorization_of s request) ≡ none
    → authenticate_admin config (authorization_of s request) ≡ false
    → IsPublic (serve_http repository config s request api).0
      × ((serve_http repository config s request api).1 ≡ api)
unfolding serve_http
serve_http-IsPublic repository config s request api no_tenant no_admin =
    elim (Bool-cases (request.method == "OPTIONS")) [
      | inl options ↦ rw options (tt, refl)
      | inr other ↦ rw other (
          dispatch-IsHarmless repository config s request api no_tenant no_admin
            (find_handler patterns request.method request.segments))
    ]
