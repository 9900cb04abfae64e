-- ===== src/Examples/Configs.antt =====
-- A configuration that is loaded, validated and used to authenticate.
use outcome_router.Base.{
  ◌≡◌, ◌≢◌, refl, ◌⊎◌, inr, ◌↔◌, none, some, [], In, All, codes, lookup, has_key,
}
use outcome_router.Config.{Tenant, Config}
use outcome_router.Config.Access.{authenticate, token_of, authenticate_lem}
use outcome_router.Config.Validate.{
  validate_config, check_tenants, check_providers, check_catalog, check_policies,
}
use outcome_router.Domain.Validate.{is_blank, validate, check_models, check_percents}
use outcome_router.Config.Validate.Accepts.{IsWellFormed, validate_config_iff}
use outcome_router.Config.Load.{load, AreSet, with_environment, load_lem}
use outcome_router.Double.Fixed.{Fixed, fixed_double}
use outcome_router.Examples.Serving.{config}
use outcome_router.Examples.Policies.{as_listed}

authenticate_lem_example :
    ((t : Tenant)
      → authenticate config "Bearer key" ≡ some t
      → In t config.tenants
        × (token_of "Bearer key" ≢ [])
        × (token_of "Bearer key" ≡ codes t.router_api_key))
    × (authenticate config "Bearer key" ≡ none
        → (t : Tenant) → In t config.tenants
        → (token_of "Bearer key" ≡ []) ⊎ (token_of "Bearer key" ≢ codes t.router_api_key))
authenticate_lem_example = authenticate_lem config "Bearer key"

validate_config_iff_example :
    (validate_config as_listed config ≡ none) ↔ IsWellFormed as_listed config
validate_config_iff_example = validate_config_iff as_listed config

abbrev loaded : Config Fixed
loaded = with_environment (λ name. "") config

load_lem_example :
    (loaded ≡ with_environment (λ name. "") config)
    × (validate_config as_listed loaded ≡ none)
    × All AreSet loaded.tenants
unfolding load validate_config check_tenants check_providers is_blank check_catalog check_policies
    validate has_key lookup check_models check_percents
load_lem_example =
    load_lem as_listed (λ name. "") (λ content. inr config) "{}" config loaded refl refl
