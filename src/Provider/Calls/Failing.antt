-- ===== src/Provider/Calls/Failing.antt =====
-- Calls of one provider that fail, one after the other.
use outcome_router.Base.{
  ℕ, suc, ◌+◌, ◌<◌, ◌&&◌, String, ◌≡◌, refl, ap, ◌∙◌, ◌↔◌, ◌⊎◌, true, false, Option, none, some,
  List, [], ◌∷◌, ◌++◌, map, Map, All, arith, lookup, lookup-insert_self, length,
}
use outcome_router.Base.Int.{ℤ, pos, negsuc, leb_ℤ, ltb_ℤ}
use outcome_router.Config.{Provider}
use outcome_router.Domain.{Time}
use outcome_router.Provider.{
  Circuit, Client, refreshed, circuit_or_new, available, failure_limit, open_duration, failed,
  record_failure, retryable_status,
}
use outcome_router.Provider.Breaker.{
  is_available, available-is_closed, is_closed-circuit_or_new, circuit_of, circuit_after,
  circuit_after-snoc, no_circuit, failures-no_circuit, fresh_iff,
}
use outcome_router.Provider.Calls.{Http, Reply, broken, answered, call, send, receive, http_request}

-- One call of `Do`: the network that it meets, its times and what it sends.
pub record Calling : Type 0 where
  pub http : Http
  pub asked : Time
  pub answered_at : Time
  pub model_id : String
  pub body : List ℕ
  pub headers : Map String

abbrev pub after_call : Client → Provider → Calling → Client
after_call client config c =
    (call c.http client c.asked c.answered_at config c.model_id c.body c.headers).1

unfoldable pub after_calls : Client → Provider → List Calling → Client
after_calls client config [] = client
after_calls client config (c ∷ cs) = after_calls (after_call client config c) config cs

-- A reply that is recorded as a failure: none, or one with a status worth another attempt.
abbrev pub IsFailure : Reply → Type 0
IsFailure (broken reason) = Unit
IsFailure (answered response) = retryable_status response.status_code ≡ true

-- A call that fails when the breaker lets it through.
abbrev pub IsFailing : Provider → Calling → Type 0
IsFailing config c =
    (c.http.refused config.base_url ≡ none)
    × IsFailure (c.http.send (http_request c.http config c.body c.headers))

retryable-not_success :
    (status : ℤ)
    → retryable_status status ≡ true
    → (leb_ℤ (pos 200) status && ltb_ℤ status (pos 300)) ≡ false
unfolding retryable_status
retryable-not_success (pos n) h = ground arith
retryable-not_success (negsuc n) h = ground arith

receive-failure :
    (client : Client) (now : Time) (config : Provider) (model_id : String) (reply : Reply)
    → IsFailure reply
    → (receive client now config model_id reply).1 ≡ record_failure client now config
unfolding receive
receive-failure client now config model_id (broken reason) h = refl
receive-failure client now config model_id (answered response) h =
    rw (retryable-not_success response.status_code h, h) refl

refreshed_closed :
    (now : Time) (state : Circuit) → state.open_until ≡ 0 → refreshed now state ≡ state
refreshed_closed now state closed = ground arith

-- A closed circuit answers that it is, and the question leaves it.
asked_closed :
    (client : Client) (now : Time) (config : Provider) (entry : Option Circuit)
    → lookup config.id client.circuits ≡ entry
    → (circuit_or_new entry).open_until ≡ 0
    → ((available client now config.id).0 ≡ true)
      × (circuit_of (available client now config.id).1 config ≡ circuit_or_new entry)
unfolding available
asked_closed client now config none e closed = rw (e, e) (refl, refl)
asked_closed client now config (some state) e closed =
    let same = refreshed_closed now state closed in
    rw (e, same, lookup-insert_self, closed) (refl, refl)

after_call-failing :
    (client : Client) (config : Provider) (c : Calling)
    → IsFailing config c
    → (available client c.asked config.id).0 ≡ true
    → (call c.http client c.asked c.answered_at config c.model_id c.body c.headers).1
      ≡ record_failure (available client c.asked config.id).1 c.answered_at config
unfolding call send
after_call-failing client config c (made, fails) through =
    rw (through, made)
      (receive-failure (available client c.asked config.id).1 c.answered_at config c.model_id _
        fails)

circuit_of-record_failure :
    (client : Client) (now : Time) (config : Provider)
    → circuit_of (record_failure client now config) config
      ≡ failed now config (circuit_of client config)
unfolding record_failure
circuit_of-record_failure client now config = rw lookup-insert_self refl

circuit_of-after_call :
    (client : Client) (config : Provider) (c : Calling)
    → IsFailing config c
    → (circuit_of client config).open_until ≡ 0
    → circuit_of (after_call client config c) config
      ≡ failed c.answered_at config (circuit_of client config)
circuit_of-after_call client config c fails closed =
    let (through, same) = asked_closed client c.asked config _ refl closed in
    ap (λ after. circuit_of after config) (after_call-failing client config c fails through)
    ∙ circuit_of-record_failure (available client c.asked config.id).1 c.answered_at config
    ∙ ap (failed c.answered_at config) same

-- The calls up to the one with which the failures reach the limit are all let through.
circuit_of-after_calls :
    (client : Client) (config : Provider) (cs : List Calling) (last : Calling)
    → All (IsFailing config) (cs ++ last ∷ [])
    → (circuit_of client config).open_until ≡ 0
    → leb_ℤ (failure_limit config) (pos ((circuit_of client config).failures + length cs)) ≡ false
    → circuit_of (after_calls client config (cs ++ last ∷ [])) config
      ≡ circuit_after config
          (circuit_of client config)
          (map (λ (c : Calling). c.answered_at) cs ++ last.answered_at ∷ [])
unfolding after_calls circuit_after
circuit_of-after_calls client config [] last (fails, _) closed few =
    circuit_of-after_call client config last fails closed
circuit_of-after_calls client config (c ∷ cs) last (fails, rest) closed few =
    let step = circuit_of-after_call client config c fails closed in
    let more : leb_ℤ (failure_limit config) (pos ((circuit_of client config).failures + 1))
        ≡ false =
      ground arith in
    let still : (circuit_of (after_call client config c) config).open_until ≡ 0 =
      rw (step, more) closed in
    let fewer : leb_ℤ (failure_limit config)
          (pos ((circuit_of (after_call client config c) config).failures + length cs))
        ≡ false =
      rw step (ground arith) in
    circuit_of-after_calls (after_call client config c) config cs last rest still fewer
    ∙ ap
        (λ state.
          circuit_after config state
            (map (λ (x : Calling). x.answered_at) cs ++ last.answered_at ∷ []))
        step

-- The question after the open period that the last failure started.
refreshed-failed :
    (config : Provider) (state : Circuit) (t now : Time)
    → leb_ℤ (failure_limit config) (pos (state.failures + 1)) ≡ true
    → t + open_duration config < now
    → refreshed now (failed t config state) ≡ no_circuit
refreshed-failed config state t now full over = rw full (ground arith)

asked_over :
    (client : Client) (now : Time) (config : Provider) (entry : Option Circuit)
    → lookup config.id client.circuits ≡ entry
    → refreshed now (circuit_or_new entry) ≡ no_circuit
    → circuit_of (available client now config.id).1 config ≡ no_circuit
unfolding available
asked_over client now config none e over = rw (e, e) refl
asked_over client now config (some state) e over = rw (e, over, lookup-insert_self) refl

length-times : (cs : List Calling) → length (map (λ (c : Calling). c.answered_at) cs) ≡ length cs
length-times [] = refl
length-times (c ∷ cs) = ap suc (length-times cs)

-- After calls of a provider whose circuit is closed without a failure, all of which fail, fewer than the
-- limit before the last (3 where the configured limit is not positive): the provider may be used at
-- `now` exactly when the failures are still fewer than the limit, or `now` is later than the last
-- answer and the open period. When it may be used after an open period, the question for it leaves
-- the circuit closed without a failure, so that the count starts again.
pub after_calls_iff :
    (client : Client) (config : Provider) (cs : List Calling) (last : Calling) (now : Time)
    → circuit_of client config ≡ no_circuit
    → All (IsFailing config) (cs ++ last ∷ [])
    → leb_ℤ (failure_limit config) (pos (length cs)) ≡ false
    → let after = after_calls client config (cs ++ last ∷ []) in
      ((is_available after now config.id ≡ true) ↔ (
        (leb_ℤ (failure_limit config) (pos (length cs + 1)) ≡ false)
        ⊎ (last.answered_at + open_duration config < now)))
      × (leb_ℤ (failure_limit config) (pos (length cs + 1)) ≡ true
          → last.answered_at + open_duration config < now
          → circuit_of (available after now config.id).1 config ≡ no_circuit)
after_calls_iff client config cs last now fresh fails few =
    let after = after_calls client config (cs ++ last ∷ []) in
    let times = map (λ (c : Calling). c.answered_at) cs in
    let state : circuit_of after config
        ≡ circuit_after config no_circuit (times ++ last.answered_at ∷ []) =
      circuit_of-after_calls client config cs last fails (rw fresh refl) (rw fresh (ground arith))
      ∙ ap (λ c. circuit_after config c (times ++ last.answered_at ∷ [])) fresh in
    let count : (circuit_after config no_circuit times).failures ≡ length cs =
      failures-no_circuit config times ∙ length-times cs in
    (
      rw (available-is_closed, is_closed-circuit_or_new, state, ← length-times cs)
          (fresh_iff config times last.answered_at now),
      λ full over. asked_over after now config _ refl (
          ap (refreshed now) (state ∙ circuit_after-snoc config no_circuit times last.answered_at)
          ∙ refreshed-failed config (circuit_after config no_circuit times) last.answered_at now
              (rw count full) over),
    )
