-- ===== src/Provider/Calls/Recorded.antt =====
-- What a call leaves in the circuit breaker.
use outcome_router.Base.{
  eq_refl, subst, ℕ, ◌^◌, ◌&&◌, String, ◌≡◌, ◌≢◌, refl, sym, ap, ◌∙◌, inl, inr, true, false, Option,
  none, some, List, Map, arith, lookup, eq_iff, if◌then◌else◌, Bool-cases,
}
use outcome_router.Base.Int.{ℤ, pos, ◌≤ℤ◌, ◌<ℤ◌, leb_ℤ, ltb_ℤ}
use outcome_router.Config.{Provider}
use outcome_router.Domain.{Time}
use outcome_router.Provider.{Client, available, record_failure, record_success, retryable_status}
use outcome_router.Provider.Breaker.{
  available-available, is_available, is_closed, available-is_closed, record_failure-other,
  record_success-lookup,
}
use outcome_router.Provider.Calls.{
  Http, Response, Reply, broken, answered, circuit_is_open, bad_request, transport_failed, upstream,
  read_failed, Answer, responded, gave_up, retryable, receive, send, call, error_of, read_limited,
}

-- The circuit of a provider after a call, by the answer: forgotten after a success, one failure more
-- after an error worth another attempt, and else as the question to the breaker left it.
abbrev pub IsRecorded : Client → Time → Provider → Answer → Client → Type 0
IsRecorded before now config (responded response) after =
    (pos 200 ≤ℤ response.status_code)
    × (response.status_code <ℤ pos 300)
    × (after ≡ record_success before config.id)
IsRecorded before now config (gave_up (circuit_is_open id)) after = after ≡ before
IsRecorded before now config (gave_up (bad_request reason)) after = after ≡ before
IsRecorded before now config (gave_up error) after =
    after ≡ (if retryable error then record_failure before now config else before)

error-IsRecorded :
    (client : Client) (now : Time) (config : Provider) (model_id : String) (status : ℤ)
    (read : List ℕ × Option String)
    → IsRecorded client now config
        (gave_up (error_of config model_id status read))
        (if retryable_status status then record_failure client now config else client)
error-IsRecorded client now config model_id status (body, none) = refl
error-IsRecorded client now config model_id status (body, some reason) = refl

range_lem :
    (status : ℤ)
    → (leb_ℤ (pos 200) status && ltb_ℤ status (pos 300)) ≡ true
    → (pos 200 ≤ℤ status) × (status <ℤ pos 300)
range_lem status h = ground arith

receive-IsRecorded :
    (client : Client) (now : Time) (config : Provider) (model_id : String) (reply : Reply)
    → IsRecorded client now config
        (receive client now config model_id reply).0
        (receive client now config model_id reply).1
unfolding receive
receive-IsRecorded client now config model_id (broken reason) = refl
receive-IsRecorded client now config model_id (answered response) =
    elim (Bool-cases
      (leb_ℤ (pos 200) response.status_code && ltb_ℤ response.status_code (pos 300))) [
        | inl ok ↦
            let (lower, upper) = range_lem response.status_code ok in rw (ok) (lower, upper, refl)
        | inr failed ↦ rw (failed) (
            error-IsRecorded client now config model_id response.status_code
              (read_limited (2 ^ 20) response))
      ]

send-IsRecorded :
    (http : Http) (client : Client) (now : Time) (config : Provider) (model_id : String)
    (body : List ℕ) (headers : Map String) (refused : Option String)
    → IsRecorded client now config
        (send http client now config model_id body headers refused).0
        (send http client now config model_id body headers refused).1
unfolding send
send-IsRecorded http client now config model_id body headers (some reason) = refl
send-IsRecorded http client now config model_id body headers none =
    receive-IsRecorded client now config model_id _

-- What a call records, from the state that the question to the breaker leaves: after a response,
-- which has a status from 200 to 299, the circuit of its provider is forgotten; after a refusal
-- by the breaker or a request that cannot be made nothing is recorded; after any other error one
-- failure, exactly when the error is worth another attempt.
pub call-IsRecorded :
    (http : Http) (client : Client) (asked now : Time) (config : Provider) (model_id : String)
    (body : List ℕ) (headers : Map String)
    → IsRecorded
        (available client asked config.id).1
        now
        config
        (call http client asked now config model_id body headers).0
        (call http client asked now config model_id body headers).1
unfolding call
call-IsRecorded http client asked now config model_id body headers =
    elim (Bool-cases (available client asked config.id).0) [
      | inl closed ↦ rw (closed) (
          send-IsRecorded http (available client asked config.id).1 now config model_id body headers
            (http.refused config.base_url))
      | inr refused ↦ rw (refused) refl
    ]

-- Whatever a call answers, the circuits of the other providers are as the question left them.
IsRecorded-other :
    (before after : Client) (now : Time) (config : Provider) (result : Answer) (other : String)
    → config.id ≢ other
    → IsRecorded before now config result after
    → lookup other after.circuits ≡ lookup other before.circuits
IsRecorded-other before after now config (responded response) other ne (lower, upper, e) =
    rw (e) (record_success-lookup before config.id other ∙ ground (arith, eq_iff config.id other))
IsRecorded-other before after now config (gave_up (circuit_is_open id)) other ne e = rw (e) refl
IsRecorded-other before after now config (gave_up (bad_request reason)) other ne e = rw (e) refl
IsRecorded-other before after now config (gave_up (transport_failed reason)) other ne e =
    rw (e) (record_failure-other before now config other ne)
IsRecorded-other before after now config (gave_up (upstream error)) other ne e =
    ground (arith, record_failure-other before now config other ne)
IsRecorded-other before after now config (gave_up (read_failed reason error)) other ne e =
    ground (arith, record_failure-other before now config other ne)

-- A call of one provider does not change whether another one may be called at the time of the
-- question.
pub call-other :
    (http : Http) (client : Client) (asked now : Time) (config : Provider) (model_id : String)
    (body : List ℕ) (headers : Map String) (other : String)
    → config.id ≢ other
    → is_available (call http client asked now config model_id body headers).1 asked other
      ≡ is_available client asked other
call-other http client asked now config model_id body headers other ne =
    available-is_closed (call http client asked now config model_id body headers).1 asked other
    ∙ ap (is_closed asked) (
        IsRecorded-other (available client asked config.id).1
          (call http client asked now config model_id body headers).1 now config
          (call http client asked now config model_id body headers).0 other ne
          (call-IsRecorded http client asked now config model_id body headers))
    ∙ sym (available-is_closed (available client asked config.id).1 asked other)
    ∙ available-available client asked config.id other

-- While the circuit of a provider is open, nothing is sent: every network gives the same result,
-- and the error says that the circuit is open.
pub call_open :
    (http other : Http) (client : Client) (asked now : Time) (config : Provider) (model_id : String)
    (body : List ℕ) (headers : Map String)
    → is_available client asked config.id ≡ false
    → (call http client asked now config model_id body headers
        ≡ call other client asked now config model_id body headers)
      × ((call http client asked now config model_id body headers).0
          ≡ gave_up (circuit_is_open config.id))
unfolding call
call_open http other client asked now config model_id body headers h = rw (h) (refl, refl)

-- A response that is handed on has a status from 200 to 299, and its provider may be called at every
-- later time.
pub call_success :
    (http : Http) (client : Client) (asked now : Time) (config : Provider) (model_id : String)
    (body : List ℕ) (headers : Map String) (response : Response) (later : Time)
    → (call http client asked now config model_id body headers).0 ≡ responded response
    → (pos 200 ≤ℤ response.status_code)
      × (response.status_code <ℤ pos 300)
      × (is_available (call http client asked now config model_id body headers).1 later config.id
          ≡ true)
call_success http client asked now config model_id body headers response later e =
    let recorded = call-IsRecorded http client asked now config model_id body headers in
    let (lower, upper, forgotten) =
      subst
        (λ result.
          IsRecorded (available client asked config.id).1 now config result
            (call http client asked now config model_id body headers).1)
        e recorded in
    (
      lower,
      upper,
      available-is_closed (call http client asked now config model_id body headers).1 later
            config.id
          ∙ rw (forgotten) (rw (record_success-lookup, eq_refl) refl),
    )
