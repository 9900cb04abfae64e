-- ===== src/Provider/Breaker.antt =====
-- The circuit breaker.
use outcome_router.Base.{
  sym, ap, ◌∙◌, ◌++◌, ◌+◌, ◌<◌, String, ◌≡◌, ◌≢◌, refl, ◌↔◌, ◌⊎◌, inl, inr, Bool, true, false,
  Option, none, some, List, [], ◌∷◌, Map, arith, lookup, lookup-insert, lookup-remove, eq_iff, ◌==◌,
  if◌then◌else◌, Bool-cases, Option-cases, length, nat_eq,
}
use outcome_router.Base.Int.{pos, leb_ℤ}
use outcome_router.Config.{Provider}
use outcome_router.Domain.{Time}
use outcome_router.Provider.{
  Circuit, Client, refreshed, available, failure_limit, open_duration, failed, circuit_or_new,
  record_failure, record_success,
}

-- The answer alone.
abbrev pub is_available : Client → Time → String → Bool
is_available client now id = (available client now id).0

-- The answer by the state of one circuit.
abbrev pub is_closed : Time → Option Circuit → Bool
is_closed now none = true
is_closed now (some state) = nat_eq (refreshed now state).open_until 0

pub available-is_closed :
    (client : Client) (now : Time) (id : String)
    → is_available client now id ≡ is_closed now (lookup id client.circuits)
unfolding available
available-is_closed client now id = ground arith

refreshed-refreshed :
    (now : Time) (state : Circuit)
    → nat_eq (refreshed now (refreshed now state)).open_until 0
      ≡ nat_eq (refreshed now state).open_until 0
refreshed-refreshed now state = ground arith

closed_after :
    (now : Time) (id other : String) (state : Circuit) (circuits : Map Circuit)
    → lookup id circuits ≡ some state
    → is_closed now (if id == other then some (refreshed now state) else lookup other circuits)
      ≡ is_closed now (lookup other circuits)
closed_after now id other state circuits e = elim (Bool-cases (id == other)) [
  | inl same ↦ rw (same) (
      sym (
        ap (is_closed now) (ap (λ k. lookup k circuits) (sym ((eq_iff id other).0 same)) ∙ e)
        ∙ sym (refreshed-refreshed now state)))
  | inr differs ↦ rw (differs) refl
]

circuits-available :
    (client : Client) (now : Time) (id other : String)
    → is_closed now (lookup other (available client now id).1.circuits)
      ≡ is_closed now (lookup other client.circuits)
unfolding available
circuits-available client now id other = elim (Option-cases (lookup id client.circuits)) [
  | inl e ↦ rw (e) refl
  | inr (state, e) ↦ rw (e, lookup-insert) (closed_after now id other state client.circuits e)
]

-- Asking about one provider, at one time, changes no answer about any provider at that time.
pub available-available :
    (client : Client) (now : Time) (id other : String)
    → is_available (available client now id).1 now other ≡ is_available client now other
available-available client now id other =
    available-is_closed (available client now id).1 now other
    ∙ circuits-available client now id other
    ∙ sym (available-is_closed client now other)

-- What the failures leave of one circuit.
unfoldable pub circuit_after : Provider → Circuit → List Time → Circuit
circuit_after config c [] = c
circuit_after config c (t ∷ ts) = circuit_after config (failed t config c) ts

abbrev pub circuit_of : Client → Provider → Circuit
circuit_of client config = circuit_or_new (lookup config.id client.circuits)

failures-circuit_after :
    (config : Provider) (c : Circuit) (ts : List Time)
    → (circuit_after config c ts).failures ≡ c.failures + length ts
unfolding circuit_after
failures-circuit_after config c [] = omega arith
failures-circuit_after config c (t ∷ ts) =
    ground (arith, failures-circuit_after config (failed t config c) ts)

-- A circuit stays closed while the failures are fewer than the limit.
pub open_until-circuit_after :
    (config : Provider) (c : Circuit) (ts : List Time)
    → c.open_until ≡ 0
    → leb_ℤ (failure_limit config) (pos (c.failures + length ts)) ≡ false
    → (circuit_after config c ts).open_until ≡ 0
unfolding circuit_after
open_until-circuit_after config c [] closed few = closed
open_until-circuit_after config c (t ∷ ts) closed few =
    open_until-circuit_after config (failed t config c) ts (ground arith) (ground arith)

pub circuit_after-snoc :
    (config : Provider) (c : Circuit) (ts : List Time) (t : Time)
    → circuit_after config c (ts ++ t ∷ []) ≡ failed t config (circuit_after config c ts)
unfolding circuit_after
circuit_after-snoc config c [] t = refl
circuit_after-snoc config c (u ∷ ts) t = circuit_after-snoc config (failed u config c) ts t

pub is_closed-circuit_or_new :
    (now : Time) (state : Option Circuit)
    → is_closed now state ≡ is_closed now (some (circuit_or_new state))
is_closed-circuit_or_new now none = refl
is_closed-circuit_or_new now (some state) = refl

-- The last failure decides: it opens the circuit when the failures have reached the limit.
pub failed_iff :
    (config : Provider) (c : Circuit) (t now : Time)
    → (leb_ℤ (failure_limit config) (pos (c.failures + 1)) ≡ false → c.open_until ≡ 0)
    → (is_closed now (some (failed t config c)) ≡ true) ↔ (
        (leb_ℤ (failure_limit config) (pos (c.failures + 1)) ≡ false)
        ⊎ (t + open_duration config < now))
failed_iff config c t now closed = ground arith

abbrev pub no_circuit : Circuit
no_circuit = record { failures = 0; open_until = 0 }

pub failures-no_circuit :
    (config : Provider) (ts : List Time) → (circuit_after config no_circuit ts).failures ≡ length ts
failures-no_circuit config ts = ground (arith, failures-circuit_after config no_circuit ts)

-- The failures of a circuit that starts with none.
pub fresh_iff :
    (config : Provider) (ts : List Time) (t now : Time)
    → (is_closed now (some (circuit_after config no_circuit (ts ++ t ∷ []))) ≡ true) ↔ (
        (leb_ℤ (failure_limit config) (pos (length ts + 1)) ≡ false)
        ⊎ (t + open_duration config < now))
fresh_iff config ts t now =
    rw (circuit_after-snoc, ← failures-no_circuit config ts)
      (failed_iff config (circuit_after config no_circuit ts) t now (λ few.
        open_until-circuit_after config no_circuit ts refl
          (ground (arith, failures-circuit_after config no_circuit ts))))

-- What is recorded of one provider leaves the others alone.
pub record_failure-other :
    (client : Client) (t : Time) (config : Provider) (other : String)
    → config.id ≢ other
    → lookup other (record_failure client t config).circuits ≡ lookup other client.circuits
unfolding record_failure
record_failure-other client t config other ne = ground (
  arith,
  eq_iff config.id other,
  lookup-insert config.id other (failed t config (circuit_of client config)) client.circuits,
)

pub record_success-lookup :
    (client : Client) (id other : String)
    → lookup other (record_success client id).circuits
      ≡ (if id == other then none else lookup other client.circuits)
unfolding record_success
record_success-lookup client id other = lookup-remove id other client.circuits
