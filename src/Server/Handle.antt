-- ===== src/Server/Handle.antt =====
-- internal/api/server.go: `chatCompletions` from the HTTP request to the policy, and the handlers of
-- outcomes and policies.
pub mod Outcomes
use outcome_router.Base.{
  ℕ, String, Bool, true, false, not, ◌&&◌, ◌||◌, Option, none, some, List, [], ◌∷◌, Map, lookup,
  get_or, if◌then◌else◌, ◌==◌, ◌⊎◌, inl, inr, nat_eq, is_some, ◌<>◌,
}
use outcome_router.Base.Int.{pos}
use outcome_router.Config.{Tenant, Config}
use outcome_router.Config.Access.{authenticate, authenticate_admin}
use outcome_router.Double.{Double}
use outcome_router.Domain.{Time, Policy, RouteDecision, Outcome}
use outcome_router.Domain.Validate.{is_blank}
use outcome_router.Provider.Calls.{Http, get_header}
use outcome_router.Routing.Feasible.{Request}
use outcome_router.Routing.Parse.{
  Decoder, ParseError, empty_body, body_too_large, not_decoded, messages_required, messages_empty,
  metadata_not_decoded, parse_request,
}
use outcome_router.Routing.Registry.{Registry, PutError, get, put, list}
use outcome_router.Server.Outside.{Repository, HttpReply, accepted, write_error}
use outcome_router.Server.Settle.{ChatSetting}
use outcome_router.Server.Chat.{World, serve}

abbrev pub unauthorized : HttpReply
unauthorized = write_error (pos 401) "invalid_api_key" "invalid router API key"

abbrev pub invalid_request : String → HttpReply
invalid_request message = write_error (pos 400) "invalid_request" message

-- The text of an error of `ParseRequest`, with what encoding/json says of a decoding error.
abbrev parse_message : String → ParseError → String
parse_message detail empty_body = "request body is empty"
parse_message detail body_too_large = "request body exceeds 33554432 bytes"
parse_message detail not_decoded = "decode request: " <> detail
parse_message detail messages_required = "messages is required"
parse_message detail messages_empty = "messages must be a non-empty array"
parse_message detail metadata_not_decoded = "decode routing metadata: " <> detail

module _ {F S : Type 0} ⦃d : Double F⦄ where
  abbrev with_policy :
      Repository F S
      → ChatSetting F
      → Tenant
      → Request F
      → Map String
      → World F S
      → Option (Policy F) × Bool
      → HttpReply × World F S
  with_policy repository s tenant request headers w (some policy, true) =
      serve repository s tenant policy request headers w
  with_policy repository s tenant request headers w _ =
      (write_error (pos 400) "unknown_policy" "routing policy not found", w)

  abbrev with_request :
      Repository F S
      → ChatSetting F
      → Registry F S
      → Tenant
      → Map String
      → String
      → World F S
      → ParseError ⊎ Request F
      → HttpReply × World F S
  with_request repository s registry tenant headers detail w (inl e) =
      (invalid_request (parse_message detail e), w)
  with_request repository s registry tenant headers detail w (inr request) =
      let asked = request.metadata.policy_id in
      with_policy repository s tenant request headers w
        (get registry (if asked == "" then tenant.default_policy_id else asked) tenant.id)

  abbrev with_body :
      Repository F S
      → ChatSetting F
      → Decoder F
      → Registry F S
      → Tenant
      → Map String
      → String
      → World F S
      → Option (List ℕ)
      → HttpReply × World F S
  with_body repository s json registry tenant headers detail w none =
      (invalid_request "unable to read request", w)
  with_body repository s json registry tenant headers detail w (some body) =
      with_request repository s registry tenant headers detail w (parse_request json body)

  abbrev with_tenant :
      Repository F S
      → ChatSetting F
      → Decoder F
      → Registry F S
      → Map String
      → String
      → World F S
      → Option (List ℕ)
      → Option Tenant
      → HttpReply × World F S
  with_tenant repository s json registry headers detail w body none = (unauthorized, w)
  with_tenant repository s json registry headers detail w body (some tenant) =
      with_body repository s json registry tenant headers detail w body

  -- `chatCompletions`; the body is `none` where it cannot be read.
  unfoldable pub chat_completions :
      Repository F S
      → ChatSetting F
      → Decoder F
      → Config F
      → Registry F S
      → Map String
      → String
      → Option (List ℕ)
      → World F S
      → HttpReply × World F S
  chat_completions repository s json config registry headers detail body w =
      with_tenant repository s json registry headers detail w body
        (authenticate config (get_header s.http headers "Authorization"))

-- An outcome as it is decoded. `has_value` is false where the value is left out.
pub record PostedOutcome (F : Type 0) : Type 0 where
  pub outcome : Outcome F
  pub has_value : Bool

-- The id and the time that an outcome gets.
pub record Stamp : Type 0 where
  pub id : String
  pub now : Time

abbrev pub stamped : {F : Type 0} → Stamp → Tenant → Outcome F → Outcome F
stamped stamp tenant o = record o {
  id = stamp.id;
  tenant_id = tenant.id;
  occurred_at = (if nat_eq o.occurred_at 0 then stamp.now else o.occurred_at);
  created_at = stamp.now;
}

abbrev pub outcome_saved : {S : Type 0} → Stamp → Option String × S → HttpReply × S
outcome_saved stamp (some e, store) =
    (write_error (pos 500) "outcome_unavailable" "unable to persist outcome", store)
outcome_saved stamp (none, store) = (
  record {
    status = pos 202;
    headers = ("Content-Type", "application/json") ∷ [];
    body = accepted stamp.id;
  },
  store,
)

module _ {F S : Type 0} where
  abbrev pub is_known : Repository F S → S → Tenant → Outcome F → Bool
  is_known repository store tenant o =
      o.decision_id == "" || is_some (repository.get_decision store tenant.id o.decision_id)

  abbrev pub with_outcome :
      Repository F S → Stamp → Tenant → S → Option (PostedOutcome F) → HttpReply × S
  with_outcome repository stamp tenant store none =
      (write_error (pos 400) "invalid_outcome" "invalid outcome payload", store)
  with_outcome repository stamp tenant store (some posted) =
      let o = posted.outcome in
      if o.decision_id == "" && o.trace_id == ""
      then (write_error (pos 400) "invalid_outcome" "decision_id or trace_id is required", store)
      else if is_blank o.type || not posted.has_value
      then (write_error (pos 400) "invalid_outcome" "type and value are required", store)
      else if not (is_known repository store tenant o)
      then (write_error (pos 404) "unknown_decision" "decision not found", store)
      else outcome_saved stamp (repository.save_outcome (stamped stamp tenant o) store)

  abbrev pub outcome_of :
      Repository F S → Stamp → S → Option (PostedOutcome F) → Option Tenant → HttpReply × S
  outcome_of repository stamp store posted none = (unauthorized, store)
  outcome_of repository stamp store posted (some tenant) =
      with_outcome repository stamp tenant store posted

  -- `outcomes`; the payload is `none` where it does not decode.
  unfoldable pub post_outcome :
      Repository F S → Stamp → Config F → String → Option (PostedOutcome F) → S → HttpReply × S
  post_outcome repository stamp config authorization posted store =
      outcome_of repository stamp store posted (authenticate config authorization)
