-- ===== src/Examples/Calls.antt =====
-- The circuit breaker and calls of a provider.
use outcome_router.Base.{ℕ, ◌≡◌, refl, ◌⊎◌, ◌↔◌, true, false, none, [], ◌∷◌, lookup, ◌<◌, ◌+◌}
use outcome_router.Base.Int.{ℤ, pos, leb_ℤ}
use outcome_router.Config.{Provider}
use outcome_router.Provider.{Client, new_client, available, failure_limit, open_duration}
use outcome_router.Provider.Breaker.{is_available, circuit_of, no_circuit}
use outcome_router.Provider.Calls.Failing.{Calling, after_calls, after_calls_iff}
use outcome_router.Provider.Calls.{Http, Reply, broken, answered, gave_up, circuit_is_open, call}
use outcome_router.Provider.Calls.Recorded.{IsRecorded, call-IsRecorded, call_open}

abbrev pub provider : Provider
provider = record {
  id = "p";
  base_url = "http://p";
  base_url_env = "";
  api_key_env = "";
  api_key = "secret";
  headers = [];
  timeout_ms = pos 1000;
  max_retries = pos 0;
  circuit_failures = pos 2;
  circuit_open_ms = pos 1;
}

abbrev pub reply_with : ℤ → Reply
reply_with status =
    answered record { status_code = status; headers = []; body = 123 ∷ 125 ∷ []; read_error = none }

abbrev pub network : Reply → Http
network reply = record {
  canonical = λ s. s;
  visit = λ m. m;
  refused = λ url. none;
  send = λ r. reply;
}

abbrev failing_at : ℕ → Calling
failing_at t = record {
  http = network (broken "reset");
  asked = t;
  answered_at = t + 1;
  model_id = "m";
  body = [];
  headers = [];
}

abbrev twice_failed : Client
twice_failed = after_calls new_client provider (failing_at 10 ∷ failing_at 20 ∷ [])

after_calls_iff_example :
    ((is_available twice_failed 30 "p" ≡ true)
      ↔ ((leb_ℤ (failure_limit provider) (pos 2) ≡ false) ⊎ (21 + open_duration provider < 30)))
    × (leb_ℤ (failure_limit provider) (pos 2) ≡ true
        → 21 + open_duration provider < 30
        → circuit_of (available twice_failed 30 "p").1 provider ≡ no_circuit)
unfolding lookup
after_calls_iff_example =
    after_calls_iff new_client provider (failing_at 10 ∷ []) (failing_at 20) 30 refl
      ((refl, tt), ((refl, tt), tt)) refl

abbrev opened : Client
opened = record { circuits = ("p", record { failures = 2; open_until = 1_000_020 }) ∷ [] }

call_open_example :
    (call (network (reply_with (pos 200))) opened 30 40 provider "m" [] []
      ≡ call (network (broken "reset")) opened 30 40 provider "m" [] [])
    × ((call (network (reply_with (pos 200))) opened 30 40 provider "m" [] []).0
        ≡ gave_up (circuit_is_open "p"))
unfolding available lookup
call_open_example =
    call_open (network (reply_with (pos 200))) (network (broken "reset")) opened 30 40 provider "m"
      [] [] refl

call-IsRecorded_example :
    IsRecorded
      (available new_client 30 "p").1
      40
      provider
      (call (network (reply_with (pos 503))) new_client 30 40 provider "m" [] []).0
      (call (network (reply_with (pos 503))) new_client 30 40 provider "m" [] []).1
call-IsRecorded_example =
    call-IsRecorded (network (reply_with (pos 503))) new_client 30 40 provider "m" [] []
