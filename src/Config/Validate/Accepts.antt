-- ===== src/Config/Validate/Accepts.antt =====
-- Which configurations are accepted.
use outcome_router.Base.{
  String, ◌≡◌, refl, ◌↔◌, true, false, none, List, [], ◌∷◌, Map, arith, ◌==◌, is_empty, contains,
  All, IsFresh, AreDistinct,
}
use outcome_router.Config.{Provider, Tenant, Config}
use outcome_router.Config.Validate.{
  check_providers, check_tenants, tenant_ids, check_catalog, check_policies, validate_config,
}
use outcome_router.Double.{Double}
use outcome_router.Domain.{Model, Policy}
use outcome_router.Domain.Validate.{validate, is_blank}

abbrev HasAddress : String × Provider → Type 0
HasAddress (id, provider) = is_blank provider.base_url ≡ false

check_providers_iff :
    (tenant_id : String) (providers : Map Provider)
    → (check_providers tenant_id providers ≡ none) ↔ All HasAddress providers
unfolding check_providers
check_providers_iff tenant_id [] = (λ h. tt, λ h. refl)
check_providers_iff tenant_id ((id, provider) ∷ providers) =
    ground (arith, check_providers_iff tenant_id providers)

-- A tenant has an id, a key, and an address for each of its providers.
abbrev IsTenant : Tenant → Type 0
IsTenant tenant =
    ((tenant.id == "") ≡ false)
    × ((tenant.router_api_key == "") ≡ false)
    × All HasAddress tenant.providers

check_tenants_iff :
    (seen : List String) (tenants : List Tenant)
    → (check_tenants seen tenants ≡ none)
      ↔ (All IsTenant tenants × IsFresh seen (tenant_ids tenants))
unfolding check_tenants
check_tenants_iff seen [] = (λ h. (tt, tt), λ h. refl)
check_tenants_iff seen (tenant ∷ tenants) = ground (
  arith,
  check_tenants_iff (tenant.id ∷ seen) tenants,
  check_providers_iff tenant.id tenant.providers,
)

module _ {F : Type 0} ⦃d : Double F⦄ where
  abbrev IsKeyed : String × Model F → Type 0
  IsKeyed (id, model) = (model.id == id) ≡ true

  check_catalog_iff :
      (catalog : Map (Model F)) → (check_catalog catalog ≡ none) ↔ All IsKeyed catalog
  unfolding check_catalog
  check_catalog_iff [] = (λ h. tt, λ h. refl)
  check_catalog_iff ((id, model) ∷ catalog) = ground (arith, check_catalog_iff catalog)

  -- A policy of a configured tenant that `Policy.Validate` accepts.
  abbrev IsPolicy : (Map F → Map F) → List String → Map (Model F) → Policy F → Type 0
  IsPolicy visit ids catalog policy =
      (contains ids policy.tenant_id ≡ true) × (validate visit policy catalog ≡ none)

  check_policies_iff :
      (visit : Map F → Map F) (ids : List String) (catalog : Map (Model F))
      (policies : List (Policy F))
      → (check_policies visit ids catalog policies ≡ none)
        ↔ All (IsPolicy visit ids catalog) policies
  unfolding check_policies
  check_policies_iff visit ids catalog [] = (λ h. tt, λ h. refl)
  check_policies_iff visit ids catalog (policy ∷ policies) =
      ground (arith, check_policies_iff visit ids catalog policies)

  pub record IsWellFormed (visit : Map F → Map F) (config : Config F) : Type 0 where
    pub has_tenant : is_empty config.tenants ≡ false
    pub has_model : is_empty config.catalog ≡ false
    pub are_tenants : All IsTenant config.tenants
    pub are_distinct : AreDistinct (tenant_ids config.tenants)
    pub are_keyed : All IsKeyed config.catalog
    pub are_policies :
        All (IsPolicy visit (tenant_ids config.tenants) config.catalog) config.policies

  -- `Validate` returns no error exactly for a configuration with at least one tenant and one model,
  -- tenants with distinct ids, keys, and an address for each provider, models that stand under their
  -- own ids, and policies that are valid and belong to its tenants.
  pub validate_config_iff :
      (visit : Map F → Map F) (config : Config F)
      → (validate_config visit config ≡ none) ↔ IsWellFormed visit config
  unfolding validate_config
  validate_config_iff visit config = ground (
    arith,
    check_tenants_iff [] config.tenants,
    check_catalog_iff config.catalog,
    check_policies_iff visit (tenant_ids config.tenants) config.catalog config.policies,
  )
