-- ===== src/Server/Settle.antt =====
-- internal/api/server.go: the record of a request that `chatCompletions` saves at the end, and its
-- answer.
use outcome_router.Base.{
  ℕ, ◌*◌, ◌^◌, String, Bool, true, false, ◌&&◌, ◌||◌, Option, none, some, List, [], ◌∷◌, Map,
  lookup, insert, is_empty, if◌then◌else◌, ◌==◌, codes, nat_eq,
}
use outcome_router.Base.Int.{ℤ, pos, ltb_ℤ, eq_ℤ}
use outcome_router.Config.{Tenant}
use outcome_router.Double.{Double}
use outcome_router.Domain.{Time, Model, Policy, RouteDecision}
use outcome_router.Provider.{Client}
use outcome_router.Provider.Calls.{
  Http, Response, UpstreamError, get_header, copy_headers, read_limited,
}
use outcome_router.Routing.Feasible.{Request, Engine}
use outcome_router.Routing.Body.{Encoder}
use outcome_router.Routing.Predict.{actual_cost}
use outcome_router.Routing.Route.{Ambient}
use outcome_router.Server.Attempts.{
  Moment, AttemptError, Setting, Attempts, attempt_all, no_attempts, build_attempt_order,
}
use outcome_router.Server.Outside.{
  HttpReply, bytes, write_error, upstream_of, upstream_status, safe_error, Usage, parse_usage,
  decision_headers, reply_with,
}

-- What one request takes from outside, beside the store: the codec, the calls, the clock, and how the
-- copy of a stream ends. `http` spells the names of headers.
pub record ChatSetting (F : Type 0) : Type 0 where
  pub ambient : Ambient F
  pub engine : Engine F
  pub catalog : Map (Model F)
  pub json : Encoder
  pub moment : ℕ → Moment
  pub day : String → String
  pub usage : List ℕ → Option Usage
  pub show : ℤ → String
  pub latency_ms : ℤ
  pub completed : Time
  pub http : Http
  pub copy_failed : Bool

abbrev pub upstream_body : Option UpstreamError → List ℕ
upstream_body none = []
upstream_body (some e) = e.body

-- `strings.Contains`, on code points.
abbrev pub starts_with : List ℕ → List ℕ → Bool
starts_with [] text = true
starts_with (p ∷ ps) [] = false
starts_with (p ∷ ps) (c ∷ cs) = nat_eq p c && starts_with ps cs

abbrev pub contains_codes : List ℕ → List ℕ → Bool
contains_codes part [] = is_empty part
contains_codes part (c ∷ cs) = starts_with part (c ∷ cs) || contains_codes part cs

abbrev pub is_event_stream : Http → Response → Bool
is_event_stream http response =
    contains_codes (codes "text/event-stream")
      (codes (get_header http response.headers "Content-Type"))

-- `copyResponseHeaders`.
abbrev pub copy_response_headers : Http → Map String → Map String → Map String
copy_response_headers http destination source =
    copy_headers http source
      ("Content-Type" ∷ "Cache-Control" ∷ "OpenAI-Organization" ∷ "OpenAI-Processing-Ms"
        ∷ "X-Request-ID" ∷ [])
      destination

abbrev pub whole_reply : Map String → Response → List ℕ × Option String → HttpReply
whole_reply headers response (body, some e) =
    reply_with (insert "Content-Type" "application/json" headers)
      (write_error (pos 502) "upstream_read_error" "unable to read upstream response")
whole_reply headers response (body, none) = record {
  status = response.status_code;
  headers = headers;
  body = bytes body;
}

module _ {F : Type 0} ⦃d : Double F⦄ where
  abbrev pub setting_of :
      ChatSetting F → Tenant → Request F → Map String → RouteDecision F → Setting F
  setting_of s tenant request headers decision = record {
    json = s.json;
    catalog = s.catalog;
    tenant = tenant;
    request = request;
    headers = headers;
    predictions = decision.predictions;
    moment = s.moment;
  }

  -- The loop over the models, from the decision that `Route` made.
  unfoldable pub attempts_of :
      ChatSetting F
      → Tenant
      → Policy F
      → Request F
      → Map String
      → RouteDecision F
      → Client
      → Attempts F
  attempts_of s tenant policy request headers decision client =
      attempt_all (setting_of s tenant request headers decision)
        (build_attempt_order decision.selected_model policy.fallback_models policy.incumbent_model)
        (no_attempts client)

  -- The record when every model failed.
  abbrev pub failed_decision : ChatSetting F → RouteDecision F → Attempts F → RouteDecision F
  failed_decision s decision st =
      let status = upstream_status st.last_error in
      record decision {
        attempted_models = st.attempted;
        error = safe_error s.show st.last_error;
        provider_latency_ms = s.latency_ms;
        completed_at = some s.completed;
        upstream_status = (if eq_ℤ status (pos 0) then decision.upstream_status else status);
      }

  -- `writeUpstreamFailure`.
  abbrev pub upstream_failure : Option AttemptError → RouteDecision F → HttpReply
  upstream_failure last_error decision =
      let body = upstream_body (upstream_of last_error) in
      if is_empty body
      then reply_with (decision_headers decision (("Content-Type", "application/json") ∷ []))
          (write_error (pos 502) "upstream_unavailable" "all eligible models failed")
      else record {
        status = pos 502;
        headers = decision_headers decision (("Content-Type", "application/json") ∷ []);
        body = bytes body;
      }

  -- The record when a model has answered, before its body is read.
  abbrev pub answered_decision :
      ChatSetting F → RouteDecision F → Attempts F → Model F → Response → RouteDecision F
  answered_decision s decision st model response = record decision {
    attempted_models = st.attempted;
    final_model = model.id;
    provider_latency_ms = s.latency_ms;
    upstream_status = response.status_code;
    fallback_reason =
        (if model.id == decision.selected_model
          then decision.fallback_reason
          else "selected_model_failed");
  }

  abbrev pub streamed_decision : ChatSetting F → RouteDecision F → RouteDecision F
  streamed_decision s decision = record decision {
    error = (if s.copy_failed then "stream interrupted" else decision.error);
    actual_cost_usd = decision.estimated_cost_usd;
    provider_latency_ms = s.latency_ms;
    completed_at = some s.completed;
  }

  abbrev pub unread_decision : ChatSetting F → RouteDecision F → RouteDecision F
  unread_decision s decision = record decision {
    error = "unable to read upstream response";
    completed_at = some s.completed;
  }

  -- What the incumbent would have cost, if it is in the catalog.
  abbrev pub incumbent_cost : RouteDecision F → ℤ × ℤ → Option (Model F) → F
  incumbent_cost decision (input, output) none = decision.incumbent_estimated_cost_usd
  incumbent_cost decision (input, output) (some incumbent) = actual_cost incumbent input output

  abbrev pub read_decision : ChatSetting F → RouteDecision F → Model F → ℤ × ℤ → RouteDecision F
  read_decision s decision model (input, output) =
      let used = ltb_ℤ (pos 0) input || ltb_ℤ (pos 0) output in
      record decision {
        input_tokens = input;
        output_tokens = output;
        actual_cost_usd =
            (if used then actual_cost model input output else decision.estimated_cost_usd);
        incumbent_estimated_cost_usd =
            (if used
              then incumbent_cost decision (input, output)
                  (lookup decision.incumbent_model s.catalog)
              else decision.incumbent_estimated_cost_usd);
        provider_latency_ms = s.latency_ms;
        completed_at = some s.completed;
      }

  abbrev pub whole_decision :
      ChatSetting F → RouteDecision F → Model F → List ℕ × Option String → RouteDecision F
  whole_decision s decision model (body, some e) = unread_decision s decision
  whole_decision s decision model (body, none) =
      read_decision s decision model (parse_usage (s.usage body))

  -- The record that is saved at the end, and the answer.
  unfoldable pub settle :
      ChatSetting F
      → Request F
      → RouteDecision F
      → Attempts F
      → Option (Model F × Response)
      → RouteDecision F × HttpReply
  settle s request decision st none =
      let final = failed_decision s decision st in (final, upstream_failure st.last_error final)
  settle s request decision st (some (model, response)) =
      let answered = answered_decision s decision st model response in
      let headers = copy_response_headers s.http (decision_headers answered []) response.headers in
      if request.stream || is_event_stream s.http response
      then (
        streamed_decision s answered,
        record { status = response.status_code; headers = headers; body = bytes response.body },
      )
      else (
        whole_decision s answered model (read_limited (64 * 2 ^ 20) response),
        whole_reply headers response (read_limited (64 * 2 ^ 20) response),
      )
