-- ===== src/Config/Load.antt =====
-- internal/config/config.go: `Load`, from the decoded file on. `env` is `os.Getenv`.
use mathlib.Core.Sum.{inl-ne-inr, inr-injective}
use outcome_router.Base.{
  ℕ, ◌<◌, subst, sym, Option-cases, String, ◌≡◌, ◌⊎◌, inl, inr, false, not, ◌&&◌, Option, none,
  some, List, [], ◌∷◌, Map, map, arith, if◌then◌else◌, ◌==◌, All,
}
use outcome_router.Base.Int.{ℤ, pos, eq_ℤ}
use outcome_router.Config.{Provider, Tenant, Config}
use outcome_router.Config.Validate.{ConfigError, validate_config}
use outcome_router.Double.{Double}

abbrev or_default : String → String → String
or_default value default = if value == "" then default else value

abbrev or_number : ℤ → ℤ → ℤ
or_number value default = if eq_ℤ value (pos 0) then default else value

-- The value of the variable that is named, if one is named.
abbrev from_env : (String → String) → String → String → String
from_env env name value = if name == "" then value else env name

abbrev pub load_provider : (String → String) → String × Provider → String × Provider
load_provider env (id, provider) = (
  id,
  record provider {
    id = or_default provider.id id;
    api_key = from_env env provider.api_key_env provider.api_key;
    base_url =
        (if not (provider.base_url_env == "") && not (env provider.base_url_env == "")
          then env provider.base_url_env
          else provider.base_url);
    timeout_ms = or_number provider.timeout_ms (pos 120000);
    circuit_failures = or_number provider.circuit_failures (pos 3);
    circuit_open_ms = or_number provider.circuit_open_ms (pos 30000);
  },
)

abbrev pub load_tenant : (String → String) → Tenant → Tenant
load_tenant env tenant = record tenant {
  router_api_key = from_env env tenant.router_api_key_env tenant.router_api_key;
  providers = map (load_provider env) tenant.providers;
}

abbrev pub with_environment : {F : Type 0} → (String → String) → Config F → Config F
with_environment env config = record config {
  listen_address = or_default config.listen_address ":8080";
  data_directory = or_default config.data_directory "./data";
  admin_key = from_env env config.admin_key_env config.admin_key;
  tenants = map (load_tenant env) config.tenants;
}

pub data LoadError : Type 0 where
  not_read not_decoded : String → LoadError
  not_valid : ConfigError → LoadError

-- A provider with a time limit, a failure limit and an open period other than 0.
abbrev pub IsConfigured : String × Provider → Type 0
IsConfigured (id, p) =
    (eq_ℤ p.timeout_ms (pos 0) ≡ false)
    × (eq_ℤ p.circuit_failures (pos 0) ≡ false)
    × (eq_ℤ p.circuit_open_ms (pos 0) ≡ false)

or_number-set : (value : ℤ) (n : ℕ) → 0 < n → eq_ℤ (or_number value (pos n)) (pos 0) ≡ false
or_number-set value n h = ground arith

load_provider-IsConfigured :
    (env : String → String) (entries : Map Provider)
    → All IsConfigured (map (load_provider env) entries)
load_provider-IsConfigured env [] = tt
load_provider-IsConfigured env ((id, p) ∷ rest) = (
  (
    or_number-set p.timeout_ms 120000 (omega arith),
    or_number-set p.circuit_failures 3 (omega arith),
    or_number-set p.circuit_open_ms 30000 (omega arith),
  ),
  load_provider-IsConfigured env rest,
)

abbrev pub AreSet : Tenant → Type 0
AreSet tenant = All IsConfigured tenant.providers

load_tenant-AreSet :
    (env : String → String) (tenants : List Tenant) → All AreSet (map (load_tenant env) tenants)
load_tenant-AreSet env [] = tt
load_tenant-AreSet env (tenant ∷ tenants) =
    (load_provider-IsConfigured env tenant.providers, load_tenant-AreSet env tenants)

module _ {F : Type 0} ⦃d : Double F⦄ where
  abbrev checked : Config F → Option ConfigError → LoadError ⊎ Config F
  checked config none = inr config
  checked config (some e) = inl (not_valid e)

  -- `read` is the content of the file, or the error; `decode` is `json.Unmarshal`.
  abbrev decoded : (Map F → Map F) → (String → String) → String ⊎ Config F → LoadError ⊎ Config F
  decoded visit env (inl e) = inl (not_decoded e)
  decoded visit env (inr config) =
      checked (with_environment env config) (validate_config visit (with_environment env config))

  unfoldable pub load :
      (Map F → Map F)
      → (String → String)
      → (String → String ⊎ Config F)
      → String ⊎ String
      → LoadError ⊎ Config F
  load visit env decode (inl e) = inl (not_read e)
  load visit env decode (inr content) = decoded visit env (decode content)

  decoded-valid :
      (visit : Map F → Map F) (env : String → String) (file config : Config F)
      → decoded visit env (inr file) ≡ inr config
      → (validate_config visit config ≡ none) × (config ≡ with_environment env file)
  decoded-valid visit env file config h =
      elim (Option-cases (validate_config visit (with_environment env file))) [
        | inl ok ↦
            let same : with_environment env file ≡ config = inr-injective _ _ (rw (ok) at h) in
            (subst (λ c. validate_config visit c ≡ none) same ok, sym same)
        | inr (e, bad) ↦ absurd (inl-ne-inr (rw (bad) at h))
      ]

  -- What `Load` returns of a file that is read and decodes is the decoded file with the
  -- environment filled in, it passes `Validate`, and every provider has a time limit, a failure
  -- limit and an open period other than 0.
  pub load_lem :
      (visit : Map F → Map F) (env : String → String) (decode : String → String ⊎ Config F)
      (content : String) (file config : Config F)
      → decode content ≡ inr file
      → load visit env decode (inr content) ≡ inr config
      → (config ≡ with_environment env file)
        × (validate_config visit config ≡ none)
        × All AreSet config.tenants
  unfolding load
  load_lem visit env decode content file config e h =
      let (ok, same) = decoded-valid visit env file config (rw (e) at h) in
      (
        same,
        ok,
        subst (λ (c : Config F). All AreSet c.tenants) (sym same)
            (load_tenant-AreSet env file.tenants),
      )
