-- ===== src/Domain/Validate.antt =====
-- internal/domain/types.go: `Policy.Validate`. An error is a value that names its message.
pub mod Accepts
use outcome_router.Base.{
  ℕ, String, Bool, true, false, not, ◌&&◌, ◌||◌, Option, none, some, List, [], ◌∷◌, ◌++◌, Map,
  has_key, codes, contains, if◌then◌else◌, nat_eq, leb, is_empty, ◌==◌,
}
use mathlib.Core.List.{reverse}
use outcome_router.Double.{Double, ltf, lef, outside, zero_float, one_float}
use outcome_router.Domain.{Mode, observe, shadow, canary, active, other_mode, Model, Policy}

pub data PolicyError : Type 0 where
  identity_required : PolicyError
  unsupported_mode : Mode → PolicyError
  incumbent_not_in_catalog not_in_catalog repeated : String → PolicyError
  tolerance_out_of_range : PolicyError
  percent_out_of_range : String → PolicyError
  exploration_over_limit confidence_not_positive : PolicyError

-- A check returns its error, `none` for Go's nil.
abbrev pub Check : Type 0
Check = Option PolicyError

infixl 5 ◌>>◌
abbrev pub ◌>>◌ : Check → Check → Check
none >> next = next
some e >> next = some e

abbrev pub fail_if : Bool → PolicyError → Check
fail_if true e = some e
fail_if false e = none

-- The white space of `strings.TrimSpace`.
abbrev is_space : ℕ → Bool
is_space c =
    (leb 0x09 c && leb c 0x0d)
    || nat_eq c 0x20
    || nat_eq c 0x85
    || nat_eq c 0xa0
    || nat_eq c 0x1680
    || (leb 0x2000 c && leb c 0x200a)
    || nat_eq c 0x2028
    || nat_eq c 0x2029
    || nat_eq c 0x202f
    || nat_eq c 0x205f
    || nat_eq c 0x3000

unfoldable pub trim_left : List ℕ → List ℕ
trim_left [] = []
trim_left (c ∷ cs) = if is_space c then trim_left cs else c ∷ cs

unfoldable pub trim_space : List ℕ → List ℕ
unfolding trim_left
trim_space cs = reverse (trim_left (reverse (trim_left cs)))

-- `strings.TrimSpace(s) == ""`
unfoldable pub is_blank : String → Bool
unfolding trim_space
is_blank s = is_empty (trim_space (codes s))

abbrev pub is_supported : Mode → Bool
is_supported (other_mode s) = false
is_supported _ = true

module _ {F : Type 0} ⦃d : Double F⦄ where
  unfoldable pub check_models : Map (Model F) → List String → List String → Check
  check_models catalog seen [] = none
  check_models catalog seen (id ∷ ids) = do
    fail_if (not (has_key id catalog)) (not_in_catalog id)
    fail_if (contains seen id) (repeated id)
    check_models catalog (id ∷ seen) ids

  unfoldable pub check_percents : Map F → Check
  check_percents [] = none
  check_percents ((name, value) ∷ entries) = do
    fail_if (outside value zero_float (d.decimal 100 0)) (percent_out_of_range name)
    check_percents entries

  abbrev pub percents : Policy F → Map F
  percents p =
      ("control_percent", p.control_percent)
      ∷ ("canary_percent", p.canary_percent)
      ∷ ("exploration_percent", p.exploration_percent)
      ∷ []

  -- `visit` is the order in which Go visits the map of the percentages.
  unfoldable pub validate : (Map F → Map F) → Policy F → Map (Model F) → Check
  validate visit p catalog = do
    fail_if (is_blank p.id || is_blank p.tenant_id || is_blank p.version) identity_required
    fail_if (not (is_supported p.mode)) (unsupported_mode p.mode)
    fail_if (not (has_key p.incumbent_model catalog)) (incumbent_not_in_catalog p.incumbent_model)
    check_models catalog [] (p.candidate_models ++ p.fallback_models)
    fail_if (outside p.quality_tolerance zero_float one_float) tolerance_out_of_range
    check_percents (visit (percents p))
    fail_if (ltf (d.decimal 3 0) p.exploration_percent) exploration_over_limit
    fail_if (lef p.confidence_z zero_float) confidence_not_positive
