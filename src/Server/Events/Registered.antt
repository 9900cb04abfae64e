-- ===== src/Server/Events/Registered.antt =====
-- The policies of a running server.
use outcome_router.Base.{
  String, ◌≡◌, refl, ◌∙◌, inl, inr, Option, none, some, List, [], ◌∷◌, Map, All, lookup, Bool-cases,
  ◌==◌,
}
use outcome_router.Config.{Config}
use outcome_router.Config.Access.{authenticate_admin}
use outcome_router.Double.{Double}
use outcome_router.Domain.{Policy, Time}
use outcome_router.Domain.Validate.Accepts.{IsOrderOf, IsAccepted, validate_iff}
use outcome_router.Routing.Registry.{Registry, PutError, put}
use outcome_router.Routing.Registry.Tenants.{IsWellKept, put-IsWellKept, put-tenant}
use outcome_router.Server.Api.{
  Api, ApiRequest, ApiSetting, authorization_of, run_handler, dispatch, serve_http,
}
use outcome_router.Server.Mux.{
  Endpoint, health_endpoint, chat_endpoint, outcomes_endpoint, decision_endpoint, summary_endpoint,
  policies_endpoint, put_policy_endpoint, patterns, Found, not_found, method_not_allowed, found,
  find_handler,
}
use outcome_router.Server.Outside.{Repository}
use outcome_router.Server.Reads.{put_policy, with_created_at, admin_put, put_reply}
use outcome_router.Server.Events.{Event, http_request, shadow_task, step, run_events}

module _ {F S : Type 0} ⦃d : Double F⦄ where
  -- Every policy stands under its id, and `Validate` accepts it.
  abbrev pub IsRegistered : Registry F S → Type 0
  IsRegistered r =
      (key : String) (p : Policy F)
      → lookup key r.policies ≡ some p
      → (p.id ≡ key) × IsAccepted p r.catalog

  -- A policy stays, perhaps in another version, with its tenant.
  abbrev pub KeepsTenants : Registry F S → Registry F S → Type 0
  KeepsTenants before after =
      (key : String) (p : Policy F)
      → lookup key before.policies ≡ some p
      → (q : Policy F) × (lookup key after.policies ≡ some q) × (q.tenant_id ≡ p.tenant_id)

  -- What one step does to the registry.
  abbrev IsKept : Registry F S → Registry F S → Type 0
  IsKept before after = (IsRegistered before → IsRegistered after) × KeepsTenants before after

  IsKept-same : (r : Registry F S) → IsKept r r
  IsKept-same r = (λ h. h, λ key p h. (p, h, refl))

  IsKept-twice : (r1 r2 r3 : Registry F S) → IsKept r1 r2 → IsKept r2 r3 → IsKept r1 r3
  IsKept-twice r1 r2 r3 (keeps1, stays1) (keeps2, stays2) = (
    λ h. keeps2 (keeps1 h),
    λ key p h.
        let (q, there, same) = stays1 key p h in
        let (q', there', same') = stays2 key q there in (q', there', same' ∙ same),
  )

  put-IsKept :
      (visit : Map F → Map F) (r : Registry F S) (policy : Policy F) (store : S)
      → IsOrderOf visit
      → IsKept r (put visit r policy store).1
  put-IsKept visit r policy store order = (
    λ registered key p h.
        let kept : IsWellKept visit r = record {
          under_id = λ k q there. (registered k q there).0;
          valid = λ k q there. (validate_iff visit q r.catalog order).1 (registered k q there).1;
        } in
        let after = put-IsWellKept visit r policy store kept in
        (
          after.under_id key p h,
          (validate_iff visit p (put visit r policy store).1.catalog order).0 (after.valid key p h),
        ),
    λ key p h. put-tenant visit r policy store key p h,
  )

  put_reply-IsKept :
      (quote : String → String) (policy : Policy F) (r : Registry F S)
      (result : Option PutError × Registry F S × S)
      → IsKept r result.1
      → IsKept r (put_reply quote policy result).1
  put_reply-IsKept quote policy r (some e, after, store) kept = kept
  put_reply-IsKept quote policy r (none, after, store) kept = kept

  put_policy-IsKept :
      (quote : String → String) (visit : Map F → Map F) (config : Config F) (r : Registry F S)
      (authorization : String) (now : Time) (payload : Option (Policy F)) (store : S)
      → IsOrderOf visit
      → IsKept r (put_policy quote visit config r authorization now payload store).1
  unfolding put_policy
  put_policy-IsKept quote visit config r authorization now payload store order =
      elim (Bool-cases (authenticate_admin config authorization)) [
        | inl admin ↦ rw admin (of_payload payload)
        | inr other ↦ rw other (IsKept-same r)
      ]
    where
      of_payload :
          (payload : Option (Policy F)) → IsKept r (admin_put quote visit r store now payload).1
      of_payload none = IsKept-same r
      of_payload (some policy) =
          put_reply-IsKept quote (with_created_at now policy) r _
            (put-IsKept visit r (with_created_at now policy) store order)

-- Go visits the percentages of a policy in some order.
abbrev pub HasOrder : {F : Type 0} → ⦃d : Double F⦄ → Event F → Type 0
HasOrder (http_request s request) = IsOrderOf s.visit
HasOrder (shadow_task t) = Unit

module _ {F S : Type 0} ⦃d : Double F⦄ (repository : Repository F S) (config : Config F) where
  run_handler-IsKept :
      (s : ApiSetting F) (request : ApiRequest) (api : Api F S) (endpoint : Endpoint)
      → IsOrderOf s.visit
      → IsKept api.registry (run_handler repository config s request api endpoint).1.registry
  run_handler-IsKept s request api health_endpoint order = IsKept-same api.registry
  run_handler-IsKept s request api chat_endpoint order = IsKept-same api.registry
  run_handler-IsKept s request api outcomes_endpoint order = IsKept-same api.registry
  run_handler-IsKept s request api (decision_endpoint id) order = IsKept-same api.registry
  run_handler-IsKept s request api summary_endpoint order = IsKept-same api.registry
  run_handler-IsKept s request api policies_endpoint order = IsKept-same api.registry
  run_handler-IsKept s request api put_policy_endpoint order =
      put_policy-IsKept s.quote s.visit config api.registry (authorization_of s request) s.stamp.now
        _ api.world.store order

  serve_http-IsKept :
      (s : ApiSetting F) (request : ApiRequest) (api : Api F S)
      → IsOrderOf s.visit
      → IsKept api.registry (serve_http repository config s request api).1.registry
  unfolding serve_http
  serve_http-IsKept s request api order = elim (Bool-cases (request.method == "OPTIONS")) [
    | inl options ↦ rw options (IsKept-same api.registry)
    | inr other ↦ rw other (by_handler (find_handler patterns request.method request.segments))
  ]
    where
      by_handler :
          (handler : Found)
          → IsKept api.registry (dispatch repository config s request api handler).1.registry
      by_handler not_found = IsKept-same api.registry
      by_handler method_not_allowed = IsKept-same api.registry
      by_handler (found endpoint) = run_handler-IsKept s request api endpoint order

  step-IsKept :
      (event : Event F) (api : Api F S)
      → HasOrder event
      → IsKept api.registry (step repository config event api).registry
  unfolding step
  step-IsKept (http_request s request) api order = serve_http-IsKept s request api order
  step-IsKept (shadow_task t) api order = IsKept-same api.registry

  run_events-IsKept :
      (events : List (Event F)) (api : Api F S)
      → All HasOrder events
      → IsKept api.registry (run_events repository config events api).registry
  unfolding run_events
  run_events-IsKept [] api orders = IsKept-same api.registry
  run_events-IsKept (event ∷ events) api (order, orders) =
      IsKept-twice api.registry (step repository config event api).registry
        (run_events repository config events (step repository config event api)).registry
        (step-IsKept event api order)
        (run_events-IsKept events (step repository config event api) orders)

  -- Whatever requests and background tasks a server runs, in whatever order and for whatever callers,
  -- a registry whose policies stand under their ids and are accepted by `Validate` stays such a one,
  -- and every policy in it stays, perhaps in another version, with the tenant it has.
  pub run_events-IsRegistered :
      (events : List (Event F)) (api : Api F S)
      → All HasOrder events
      → IsRegistered api.registry
      → IsRegistered (run_events repository config events api).registry
        × KeepsTenants api.registry (run_events repository config events api).registry
  run_events-IsRegistered events api orders registered =
      let (keeps, stays) = run_events-IsKept events api orders in (keeps registered, stays)
