-- ===== src/Server/Params.antt =====
-- internal/api/server.go: the number of days in a query, and the texts of the errors of a policy.
use outcome_router.Base.{
  ℕ, ◌+◌, ◌-◌, ◌*◌, ◌^◌, String, ◌&&◌, Option, none, some, List, [], ◌∷◌, if◌then◌else◌, ◌==◌,
  nat_eq, leb, ltb, codes, ◌<>◌,
}
use outcome_router.Base.Int.{ℤ, pos, negsuc}
use outcome_router.Domain.{Mode, observe, shadow, canary, active, other_mode}
use outcome_router.Domain.Validate.{
  PolicyError, identity_required, unsupported_mode, incumbent_not_in_catalog, not_in_catalog,
  repeated, tolerance_out_of_range, percent_out_of_range, exploration_over_limit,
  confidence_not_positive,
}
use outcome_router.Routing.Registry.{PutError, invalid, other_tenant, not_saved}

-- The digits of a text as a number, `none` at another character.
abbrev digits : ℕ → List ℕ → Option ℕ
digits n [] = some n
digits n (c ∷ cs) = if leb 48 c && leb c 57 then digits (n * 10 + (c - 48)) cs else none

abbrev unsigned : List ℕ → Option ℕ
unsigned [] = none
unsigned (c ∷ cs) = digits 0 (c ∷ cs)

abbrev positive : Option ℕ → Option ℤ
positive none = none
positive (some n) = if ltb n (2 ^ 63) then some (pos n) else none

abbrev negative : Option ℕ → Option ℤ
negative none = none
negative (some n) =
    if nat_eq n 0 then some (pos 0) else if leb n (2 ^ 63) then some (negsuc (n - 1)) else none

abbrev signed_number : List ℕ → Option ℤ
signed_number [] = none
signed_number (c ∷ cs) =
    if nat_eq c 43
    then positive (unsigned cs)
    else if nat_eq c 45
    then negative (unsigned cs)
    else positive (unsigned (c ∷ cs))

-- `strconv.Atoi`, `none` where it has an error.
unfoldable pub atoi : String → Option ℤ
atoi text = signed_number (codes text)

abbrev days_or : Option ℤ → ℕ
days_or (some (pos n)) = if ltb 0 n && leb n 365 then n else 30
days_or _ = 30

-- The days that a summary covers, 30 where the parameter is empty, no number or out of range.
unfoldable pub days_of : String → ℕ
unfolding atoi
days_of raw = if raw == "" then 30 else days_or (atoi raw)

abbrev pub nanoseconds_per_day : ℕ
nanoseconds_per_day = 24 * 3600 * 10 ^ 9

abbrev pub mode_name : Mode → String
mode_name observe = "observe"
mode_name shadow = "shadow"
mode_name canary = "canary"
mode_name active = "active"
mode_name (other_mode text) = text

-- The texts of the errors of `Validate`, with how `%q` prints a text.
abbrev policy_error_text : (String → String) → PolicyError → String
policy_error_text quote identity_required = "policy id, tenant_id, and version are required"
policy_error_text quote (unsupported_mode mode) =
    "unsupported policy mode " <> quote (mode_name mode)
policy_error_text quote (incumbent_not_in_catalog id) =
    "incumbent model " <> quote id <> " is not in the catalog"
policy_error_text quote (not_in_catalog id) = "model " <> quote id <> " is not in the catalog"
policy_error_text quote (repeated id) = "model " <> quote id <> " is repeated"
policy_error_text quote tolerance_out_of_range = "quality_tolerance must be between 0 and 1"
policy_error_text quote (percent_out_of_range name) = name <> " must be between 0 and 100"
policy_error_text quote exploration_over_limit =
    "exploration_percent cannot exceed the 3% safety limit"
policy_error_text quote confidence_not_positive = "confidence_z must be positive"

-- The texts of the errors of `Put`.
abbrev pub put_error_text : (String → String) → PutError → String
put_error_text quote (invalid e) = policy_error_text quote e
put_error_text quote other_tenant = "cannot move a policy between tenants"
put_error_text quote (not_saved e) = e
