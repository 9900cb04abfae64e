-- ===== src/Server/Reads.antt =====
-- internal/api/server.go: the handlers that read decisions, summaries and policies, the one that puts
-- a policy, and `health`.
pub mod Isolated
use outcome_router.Base.{
  ℕ, ◌+◌, ◌-◌, ◌*◌, ◌^◌, String, Bool, true, false, not, ◌&&◌, ◌||◌, Option, none, some, List, [],
  ◌∷◌, Map, lookup, get_or, if◌then◌else◌, ◌==◌, ◌⊎◌, inl, inr, nat_eq, leb, ltb, codes, ◌<>◌,
}
use outcome_router.Base.Int.{ℤ, pos, negsuc, ltb_ℤ, leb_ℤ}
use outcome_router.Config.{Tenant, Config}
use outcome_router.Config.Access.{authenticate, authenticate_admin}
use outcome_router.Double.{Double}
use outcome_router.Domain.{
  Time, Mode, observe, shadow, canary, active, other_mode, Policy, RouteDecision, AuditSummary,
}
use outcome_router.Domain.Validate.{
  PolicyError, identity_required, unsupported_mode, incumbent_not_in_catalog, not_in_catalog,
  repeated, tolerance_out_of_range, percent_out_of_range, exploration_over_limit,
  confidence_not_positive,
}
use outcome_router.Routing.Registry.{
  Registry, PutError, invalid, other_tenant, not_saved, get, put, list,
}
use outcome_router.Server.Handle.{unauthorized}
use outcome_router.Server.Params.{days_of, nanoseconds_per_day, put_error_text}
use outcome_router.Server.Outside.{Repository, HttpReply, write_error}
use outcome_router.Store.Tally.{Query}

-- What the handlers answer: an error, or a record with its status.
pub data ReadReply (F : Type 0) : Type 0 where
  refused : HttpReply → ReadReply F
  healthy : Time → ReadReply F
  found_decision : RouteDecision F → ReadReply F
  summarized : AuditSummary F → ReadReply F
  listed : List (Policy F) → ReadReply F
  created : Policy F → ReadReply F

-- `health`.
abbrev pub health : {F : Type 0} → Time → ReadReply F
health now = healthy now

module _ {F : Type 0} where
  abbrev pub decision_reply : Option (RouteDecision F) → ReadReply F
  decision_reply none = refused (write_error (pos 404) "unknown_decision" "decision not found")
  decision_reply (some found) = found_decision found

  abbrev primary_of : Option (Policy F) × Bool → String → String
  primary_of (some policy, true) otherwise = policy.primary_outcome
  primary_of _ otherwise = otherwise

  abbrev pub with_created_at : Time → Policy F → Policy F
  with_created_at now policy = record policy {
    created_at = (if nat_eq policy.created_at 0 then now else policy.created_at);
  }

-- The parameters of the address.
abbrev pub parameter : Map String → String → String
parameter parameters name = get_or (lookup name parameters) ""

abbrev pub query_of : Tenant → Map String → Time → Query
query_of tenant parameters now = record {
  tenant_id = tenant.id;
  policy_id = parameter parameters "policy_id";
  since = now - days_of (parameter parameters "days") * nanoseconds_per_day;
}

module _ {F S : Type 0} where
  abbrev tenant_decision : Repository F S → S → String → Option Tenant → ReadReply F
  tenant_decision repository store id none = refused unauthorized
  tenant_decision repository store id (some tenant) =
      decision_reply (repository.get_decision store tenant.id id)

  -- `decision`, with the id from the path.
  unfoldable pub decision : Repository F S → Config F → String → String → S → ReadReply F
  decision repository config authorization id store =
      tenant_decision repository store id (authenticate config authorization)

  -- The primary outcome that is asked for, else that of the policy, else that of the default policy.
  abbrev pub primary_outcome_of : Registry F S → Tenant → String → String → String
  primary_outcome_of registry tenant policy_id asked =
      if asked == ""
      then primary_of (get registry policy_id tenant.id)
          (primary_of (get registry tenant.default_policy_id tenant.id) "")
      else asked

  abbrev tenant_summary :
      Repository F S → Registry F S → S → Map String → Time → Option Tenant → ReadReply F
  tenant_summary repository registry store parameters now none = refused unauthorized
  tenant_summary repository registry store parameters now (some tenant) = summarized (
      repository.summary store (query_of tenant parameters now)
        (primary_outcome_of registry tenant (parameter parameters "policy_id")
          (parameter parameters "primary_outcome"))
        now)

  -- `auditSummary`. A time that a real clock shows is later than a year of its days.
  unfoldable pub audit_summary :
      Repository F S → Config F → Registry F S → String → Map String → Time → S → ReadReply F
  audit_summary repository config registry authorization parameters now store =
      tenant_summary repository registry store parameters now (authenticate config authorization)

  abbrev tenant_policies : Registry F S → Option Tenant → ReadReply F
  tenant_policies registry none = refused unauthorized
  tenant_policies registry (some tenant) = listed (list registry tenant.id)

  -- `policies`.
  unfoldable pub policies : Config F → Registry F S → String → ReadReply F
  policies config registry authorization =
      tenant_policies registry (authenticate config authorization)

  abbrev pub put_reply :
      (String → String)
      → Policy F
      → Option PutError × Registry F S × S
      → ReadReply F × Registry F S × S
  put_reply quote policy (some e, registry, store) =
      (refused (write_error (pos 400) "invalid_policy" (put_error_text quote e)), registry, store)
  put_reply quote policy (none, registry, store) = (created policy, registry, store)

module _ {F S : Type 0} ⦃d : Double F⦄ where
  abbrev pub admin_put :
      (String → String)
      → (Map F → Map F)
      → Registry F S
      → S
      → Time
      → Option (Policy F)
      → ReadReply F × Registry F S × S
  admin_put quote visit registry store now none =
      (refused (write_error (pos 400) "invalid_policy" "invalid policy payload"), registry, store)
  admin_put quote visit registry store now (some policy) =
      let dated = with_created_at now policy in
      put_reply quote dated (put visit registry dated store)

  -- `putPolicy`; the payload is `none` where it does not decode.
  unfoldable pub put_policy :
      (String → String)
      → (Map F → Map F)
      → Config F
      → Registry F S
      → String
      → Time
      → Option (Policy F)
      → S
      → ReadReply F × Registry F S × S
  put_policy quote visit config registry authorization now payload store =
      if authenticate_admin config authorization
      then admin_put quote visit registry store now payload
      else (
        refused (write_error (pos 401) "invalid_admin_key" "invalid administrator API key"),
        registry,
        store,
      )
