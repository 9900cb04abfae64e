-- ===== src/Config/Validate.antt =====
-- internal/config/config.go: `Config.Validate`. Go visits the providers and the catalog in any order:
-- which error is returned depends on it, whether one is returned does not.
pub mod Accepts
use outcome_router.Base.{
  String, Bool, true, false, not, ◌||◌, Option, none, some, List, [], ◌∷◌, Map, if◌then◌else◌, ◌==◌,
  is_empty, contains,
}
use outcome_router.Config.{Provider, Tenant, Config}
use outcome_router.Double.{Double}
use outcome_router.Domain.{Model, Policy}
use outcome_router.Domain.Validate.{PolicyError, validate, is_blank}

pub data ConfigError : Type 0 where
  no_tenants empty_catalog : ConfigError
  incomplete_tenant : ConfigError
  duplicate_tenant : String → ConfigError
  no_base_url catalog_key : String → String → ConfigError
  unknown_tenant : String → String → ConfigError
  invalid_policy : String → PolicyError → ConfigError

abbrev pub ConfigCheck : Type 0
ConfigCheck = Option ConfigError

infixl 5 ◌>>>◌
abbrev pub ◌>>>◌ : ConfigCheck → ConfigCheck → ConfigCheck
none >>> next = next
some e >>> next = some e

abbrev pub fail_when : Bool → ConfigError → ConfigCheck
fail_when true e = some e
fail_when false e = none

unfoldable pub check_providers : String → Map Provider → ConfigCheck
check_providers tenant_id [] = none
check_providers tenant_id ((id, provider) ∷ providers) =
    fail_when (is_blank provider.base_url) (no_base_url tenant_id id)
    >>> check_providers tenant_id providers

-- `seen` holds the tenants before.
unfoldable pub check_tenants : List String → List Tenant → ConfigCheck
check_tenants seen [] = none
check_tenants seen (tenant ∷ tenants) =
    fail_when (tenant.id == "" || tenant.router_api_key == "") incomplete_tenant
    >>> fail_when (contains seen tenant.id) (duplicate_tenant tenant.id)
    >>> check_providers tenant.id tenant.providers
    >>> check_tenants (tenant.id ∷ seen) tenants

abbrev pub tenant_ids : List Tenant → List String
tenant_ids [] = []
tenant_ids (tenant ∷ tenants) = tenant.id ∷ tenant_ids tenants

abbrev pub with_policy : String → Option PolicyError → ConfigCheck
with_policy id none = none
with_policy id (some e) = some (invalid_policy id e)

module _ {F : Type 0} where
  unfoldable pub check_catalog : Map (Model F) → ConfigCheck
  check_catalog [] = none
  check_catalog ((id, model) ∷ catalog) =
      fail_when (not (model.id == id)) (catalog_key id model.id) >>> check_catalog catalog

module _ {F : Type 0} ⦃d : Double F⦄ where
  unfoldable pub check_policies :
      (Map F → Map F) → List String → Map (Model F) → List (Policy F) → ConfigCheck
  check_policies visit ids catalog [] = none
  check_policies visit ids catalog (policy ∷ policies) =
      fail_when (not (contains ids policy.tenant_id)) (unknown_tenant policy.id policy.tenant_id)
      >>> with_policy policy.id (validate visit policy catalog)
      >>> check_policies visit ids catalog policies

  unfoldable pub validate_config : (Map F → Map F) → Config F → ConfigCheck
  validate_config visit config =
      fail_when (is_empty config.tenants) no_tenants
      >>> fail_when (is_empty config.catalog) empty_catalog
      >>> check_tenants [] config.tenants
      >>> check_catalog config.catalog
      >>> check_policies visit (tenant_ids config.tenants) config.catalog config.policies
