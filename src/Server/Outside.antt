-- ===== src/Server/Outside.antt =====
-- internal/api/server.go: what the handlers use from outside, and what they answer.
use outcome_router.Base.{
  ℕ, String, Option, none, some, List, [], ◌∷◌, Map, insert, ◌==◌, ◌<>◌, ◌⊎◌, if◌then◌else◌,
}
use outcome_router.Base.Int.{ℤ, pos, eq_ℤ}
use outcome_router.Domain.{Time, RouteDecision, Outcome, Policy, AuditSummary}
use outcome_router.Provider.Calls.{UpstreamError, as_upstream}
use outcome_router.Store.Tally.{Query}
use outcome_router.Server.Attempts.{AttemptError, call_error}

-- internal/store/store.go: `Repository`. The first component of a save is its error, and
-- `get_decision` gives a decision only with Go's second result true.
pub record Repository (F S : Type 0) : Type 0 where
  pub save_decision : RouteDecision F → S → Option String × S
  pub save_outcome : Outcome F → S → Option String × S
  pub get_decision : S → String → String → Option (RouteDecision F)
  pub summary : S → Query → String → Time → AuditSummary F
  pub save_policy : Policy F → S → Option String × S
  pub load_policies : S → String ⊎ List (Policy F)

-- The body of an answer: the error envelope with its code and message, bytes, or the id of a record.
pub data ReplyBody : Type 0 where
  error_body : String → String → ReplyBody
  bytes : List ℕ → ReplyBody
  accepted : String → ReplyBody

pub record HttpReply : Type 0 where
  pub status : ℤ
  pub headers : Map String
  pub body : ReplyBody

-- `writeError`.
abbrev pub write_error : ℤ → String → String → HttpReply
write_error status code message = record {
  status = status;
  headers = ("Content-Type", "application/json") ∷ [];
  body = error_body code message;
}

-- What `recover` answers after a panic.
abbrev pub panic_reply : HttpReply
panic_reply = write_error (pos 500) "internal_error" "internal server error"

abbrev pub reply_with : Map String → HttpReply → HttpReply
reply_with headers r = record r { headers = headers }

-- `UpstreamError` in an error of the attempts.
abbrev pub upstream_of : Option AttemptError → Option UpstreamError
upstream_of (some (call_error e)) = as_upstream e
upstream_of _ = none

abbrev status_of : Option UpstreamError → ℤ
status_of none = pos 0
status_of (some e) = e.status_code

-- `upstreamStatus`.
abbrev pub upstream_status : Option AttemptError → ℤ
upstream_status e = status_of (upstream_of e)

-- `UpstreamError.Error`, with how a number is printed.
abbrev error_text : (ℤ → String) → UpstreamError → String
error_text show e =
    "upstream " <> e.provider_id <> "/" <> e.model_id <> " returned status " <> show e.status_code

abbrev safe_text : (ℤ → String) → Option UpstreamError → String
safe_text show none = "upstream request failed"
safe_text show (some e) = error_text show e

-- `safeError`.
abbrev pub safe_error : (ℤ → String) → Option AttemptError → String
safe_error show none = ""
safe_error show (some e) = safe_text show (upstream_of (some e))

-- `parseUsage`: the numbers of the usage object, if the body decodes.
pub record Usage : Type 0 where
  pub prompt_tokens : ℤ
  pub completion_tokens : ℤ
  pub input_tokens : ℤ
  pub output_tokens : ℤ

abbrev pub parse_usage : Option Usage → ℤ × ℤ
parse_usage none = (pos 0, pos 0)
parse_usage (some u) = (
  if eq_ℤ u.prompt_tokens (pos 0) then u.input_tokens else u.prompt_tokens,
  if eq_ℤ u.completion_tokens (pos 0) then u.output_tokens else u.completion_tokens,
)

-- `setDecisionHeaders`, under the names as the source writes them.
abbrev pub decision_headers : {F : Type 0} → RouteDecision F → Map String → Map String
decision_headers decision headers =
    let model =
      if decision.final_model == "" then decision.selected_model else decision.final_model in
    let named =
      insert "X-Outcome-Policy-Version" decision.policy_version
        (insert "X-Outcome-Model" model (insert "X-Outcome-Decision-ID" decision.id headers)) in
    if decision.fallback_reason == ""
    then named
    else insert "X-Outcome-Fallback-Reason" decision.fallback_reason named
