-- ===== src/Provider/Calls.antt =====
-- internal/provider/client.go: `Do`, its errors, and which of them are worth another attempt.
pub mod Recorded
pub mod Failing
use outcome_router.Base.{
  ℕ, ◌^◌, String, Bool, true, false, not, ◌&&◌, Option, none, some, List, [], ◌∷◌, Map, lookup,
  insert, if◌then◌else◌, leb, ◌==◌, ◌<>◌, get_or, length, take,
}
use outcome_router.Base.Int.{ℤ, pos, leb_ℤ, ltb_ℤ, mul_int}
use outcome_router.Config.{Provider}
use outcome_router.Domain.{Time, Model}
use outcome_router.Provider.{Client, available, record_failure, record_success, retryable_status}

-- An HTTP request, with the time in nanoseconds after which it is given up.
pub record HttpRequest : Type 0 where
  pub url : String
  pub body : List ℕ
  pub headers : Map String
  pub timeout : ℤ

-- An HTTP response: its body's bytes, and the error that reading them ends with.
pub record Response : Type 0 where
  pub status_code : ℤ
  pub headers : Map String
  pub body : List ℕ
  pub read_error : Option String

pub data Reply : Type 0 where
  broken : String → Reply
  answered : Response → Reply

-- What `Do` uses of net/http: the spelling of a header's name, the order in which Go visits the
-- configured headers, the error of `NewRequestWithContext` for an address, and the round trip.
pub record Http : Type 0 where
  pub canonical : String → String
  pub visit : Map String → Map String
  pub refused : String → Option String
  pub send : HttpRequest → Reply

pub record UpstreamError : Type 0 where
  pub status_code : ℤ
  pub body : List ℕ
  pub model_id : String
  pub provider_id : String

pub data CallError : Type 0 where
  circuit_is_open : String → CallError
  bad_request : String → CallError
  transport_failed : String → CallError
  upstream : UpstreamError → CallError
  -- The joined error of a response whose body could not be read.
  read_failed : String → UpstreamError → CallError

pub data Answer : Type 0 where
  responded : Response → Answer
  gave_up : CallError → Answer

-- `errors.As` with `*UpstreamError`.
abbrev pub as_upstream : CallError → Option UpstreamError
as_upstream (upstream e) = some e
as_upstream (read_failed reason e) = some e
as_upstream _ = none

abbrev retryable_upstream : Option UpstreamError → Bool
retryable_upstream none = true
retryable_upstream (some e) = retryable_status e.status_code

abbrev pub retryable : CallError → Bool
retryable e = retryable_upstream (as_upstream e)

-- `Header.Get` and `Header.Set`.
abbrev pub get_header : Http → Map String → String → String
get_header http headers name = get_or (lookup (http.canonical name) headers) ""

abbrev pub set_header : Http → String → String → Map String → Map String
set_header http name value headers = insert (http.canonical name) value headers

abbrev set_all : Http → Map String → Map String → Map String
set_all http [] headers = headers
set_all http ((key, value) ∷ rest) headers = set_all http rest (set_header http key value headers)

-- The client's headers that are passed on.
abbrev pub copy_headers : Http → Map String → List String → Map String → Map String
copy_headers http source [] headers = headers
copy_headers http source (name ∷ names) headers =
    let value = get_header http source name in
    copy_headers http source names
      (if value == "" then headers else set_header http name value headers)

abbrev accept : Http → Map String → String
accept http request_headers =
    let value = get_header http request_headers "Accept" in
    if value == "" then "application/json, text/event-stream" else value

abbrev authorize : Http → Provider → Map String → Map String
authorize http config headers =
    if config.api_key == ""
    then headers
    else set_header http "Authorization" ("Bearer " <> config.api_key) headers

unfoldable pub request_headers_for : Http → Provider → Map String → Map String
request_headers_for http config request_headers =
    copy_headers http request_headers ("OpenAI-Organization" ∷ "OpenAI-Project" ∷ "User-Agent" ∷ [])
      (set_all http (http.visit config.headers) (
        authorize http config (
          set_header http "Accept" (accept http request_headers)
            (set_header http "Content-Type" "application/json" []))))

abbrev pub timeout_for : Provider → ℤ
timeout_for config =
    let timeout = mul_int config.timeout_ms (pos 1_000_000) in
    if leb_ℤ timeout (pos 0) then pos 120_000_000_000 else timeout

-- `io.ReadAll` of at most `limit` bytes: the bytes, and the error when reading reaches it.
abbrev pub read_limited : ℕ → Response → List ℕ × Option String
read_limited limit response =
    if leb limit (length response.body)
    then (take limit response.body, none)
    else (response.body, response.read_error)

abbrev upstream_error : Provider → String → ℤ → List ℕ → UpstreamError
upstream_error config model_id status body = record {
  status_code = status;
  body = body;
  model_id = model_id;
  provider_id = config.id;
}

abbrev pub error_of : Provider → String → ℤ → List ℕ × Option String → CallError
error_of config model_id status (body, none) = upstream (upstream_error config model_id status body)
error_of config model_id status (body, some reason) =
    read_failed reason (upstream_error config model_id status [])

-- What follows the round trip, which ends at `now`.
unfoldable pub receive : Client → Time → Provider → String → Reply → Answer × Client
receive client now config model_id (broken reason) =
    (gave_up (transport_failed reason), record_failure client now config)
receive client now config model_id (answered response) =
    let status = response.status_code in
    if leb_ℤ (pos 200) status && ltb_ℤ status (pos 300)
    then (responded response, record_success client config.id)
    else (
      gave_up (error_of config model_id status (read_limited (2 ^ 20) response)),
      if retryable_status status then record_failure client now config else client,
    )

abbrev http_request : Http → Provider → List ℕ → Map String → HttpRequest
http_request http config body request_headers = record {
  url = config.base_url;
  body = body;
  headers = request_headers_for http config request_headers;
  timeout = timeout_for config;
}

-- The request is made and sent.
unfoldable pub send :
    Http → Client → Time → Provider → String → List ℕ → Map String → Option String → Answer × Client
send http client now config model_id body request_headers (some reason) =
    (gave_up (bad_request reason), client)
send http client now config model_id body request_headers none =
    receive client now config model_id (http.send (http_request http config body request_headers))

-- `asked` is the time of the question to the circuit breaker, `now` that of the answer. Of the model
-- only the name is used.
unfoldable pub call :
    Http → Client → Time → Time → Provider → String → List ℕ → Map String → Answer × Client
call http client asked now config model_id body request_headers =
    let (closed, client') = available client asked config.id in
    if not closed
    then (gave_up (circuit_is_open config.id), client')
    else send http client' now config model_id body request_headers (http.refused config.base_url)
