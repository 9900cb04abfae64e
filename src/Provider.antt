-- ===== src/Provider.antt =====
-- internal/provider/client.go: the circuit breaker and the call of a provider. The mutex makes each
-- method one step. A time of 0 is Go's zero time, and times count nanoseconds.
pub mod Breaker
pub mod Calls
use outcome_router.Base.{
  ℕ, ◌+◌, ◌<◌, String, Bool, true, false, not, ◌&&◌, ◌||◌, Option, none, some, Map, lookup, insert,
  remove, if◌then◌else◌, ltb, leb, nat_eq, [],
}
use outcome_router.Base.Int.{ℤ, pos, pos_part, ltb_ℤ, leb_ℤ, eq_ℤ, mul_int}
use outcome_router.Config.{Provider}
use outcome_router.Domain.{Time}

pub record Circuit : Type 0 where
  pub failures : ℕ
  pub open_until : Time

pub record Client : Type 0 where
  pub circuits : Map Circuit

abbrev pub new_client : Client
new_client = record { circuits = [] }

-- The circuit with an open period that has passed closed again.
abbrev pub refreshed : Time → Circuit → Circuit
refreshed now c =
    if not (nat_eq c.open_until 0) && ltb c.open_until now
    then record { failures = 0; open_until = 0 }
    else c

-- `Available` by the circuit that it looks up.
abbrev pub answer : Client → Time → String → Option Circuit → Bool × Client
answer client now provider_id none = (true, client)
answer client now provider_id (some state) = (
  nat_eq (refreshed now state).open_until 0,
  record { circuits = insert provider_id (refreshed now state) client.circuits },
)

unfoldable pub available : Client → Time → String → Bool × Client
available client now provider_id =
    answer client now provider_id (lookup provider_id client.circuits)

abbrev pub failure_limit : Provider → ℤ
failure_limit config =
    if leb_ℤ config.circuit_failures (pos 0) then pos 3 else config.circuit_failures

-- In nanoseconds, with the wrap-around of the multiplication.
abbrev pub open_duration : Provider → ℕ
open_duration config =
    let duration = mul_int config.circuit_open_ms (pos 1_000_000) in
    if leb_ℤ duration (pos 0) then 30_000_000_000 else pos_part duration

abbrev pub failed : Time → Provider → Circuit → Circuit
failed now config state =
    let failures = state.failures + 1 in
    record {
      failures = failures;
      open_until =
          (if leb_ℤ (failure_limit config) (pos failures)
            then now + open_duration config
            else state.open_until);
    }

abbrev pub circuit_or_new : Option Circuit → Circuit
circuit_or_new none = record { failures = 0; open_until = 0 }
circuit_or_new (some state) = state

unfoldable pub record_failure : Client → Time → Provider → Client
record_failure client now config = record {
  circuits =
      insert config.id (failed now config (circuit_or_new (lookup config.id client.circuits)))
        client.circuits;
}

unfoldable pub record_success : Client → String → Client
record_success client provider_id = record { circuits = remove provider_id client.circuits }

unfoldable pub retryable_status : ℤ → Bool
retryable_status status =
    eq_ℤ status (pos 408)
    || eq_ℤ status (pos 409)
    || eq_ℤ status (pos 429)
    || leb_ℤ (pos 500) status
