-- ===== src/Config/Access.antt =====
-- internal/config/config.go: `Authenticate` and `AuthenticateAdmin`.
use mathlib.Core.Option.{some-injective, some-ne-none}
use outcome_router.Base.{
  ap, ◌∙◌, ℕ, String, ◌≡◌, ◌≢◌, ◌↔◌, ◌⊎◌, inl, inr, Bool, true, false, not, ◌&&◌, Option, none,
  some, List, [], ◌∷◌, arith, nat_eq, codes, same_codes, same_codes_iff, is_empty, if◌then◌else◌,
  ◌==◌, In, Bool-cases,
}
use outcome_router.Config.{Tenant, Config}
use outcome_router.Domain.Validate.{trim_space}

-- `strings.TrimPrefix`, on code points.
abbrev strip : List ℕ → List ℕ → List ℕ → List ℕ
strip [] rest whole = rest
strip (p ∷ ps) [] whole = whole
strip (p ∷ ps) (c ∷ cs) whole = if nat_eq p c then strip ps cs whole else whole

abbrev pub trim_prefix : List ℕ → List ℕ → List ℕ
trim_prefix prefix text = strip prefix text text

-- The token of an Authorization header.
unfoldable pub token_of : String → List ℕ
token_of raw = trim_space (trim_prefix (codes "Bearer ") (codes raw))

-- The test of a token against a key.
abbrev pub is_key : List ℕ → String → Bool
is_key token key = not (is_empty token) && same_codes token (codes key)

unfoldable pub find_tenant : List ℕ → List Tenant → Option Tenant
find_tenant token [] = none
find_tenant token (tenant ∷ tenants) =
    if is_key token tenant.router_api_key then some tenant else find_tenant token tenants

abbrev pub authenticate : {F : Type 0} → Config F → String → Option Tenant
authenticate config raw = find_tenant (token_of raw) config.tenants

abbrev pub authenticate_admin : {F : Type 0} → Config F → String → Bool
authenticate_admin config raw =
    if config.admin_key == "" then false else is_key (token_of raw) config.admin_key

is_key_iff :
    (token : List ℕ) (key : String)
    → (is_key token key ≡ true) ↔ ((token ≢ []) × (token ≡ codes key))
is_key_iff [] key = ground arith
is_key_iff (c ∷ cs) key = ground (arith, same_codes_iff (c ∷ cs) (codes key))

find_tenant-some :
    (token : List ℕ) (tenants : List Tenant) (tenant : Tenant)
    → find_tenant token tenants ≡ some tenant
    → In tenant tenants × (token ≢ []) × (token ≡ codes tenant.router_api_key)
unfolding find_tenant
find_tenant-some token [] tenant h = cc
find_tenant-some token (t ∷ ts) tenant h = elim (Bool-cases (is_key token t.router_api_key)) [
  | inl match ↦
      let same : t ≡ tenant = some-injective _ _ (rw (match) at h) in
      let (given, key) = (is_key_iff token t.router_api_key).0 match in
      (inl same, given, key ∙ ap (λ (x : Tenant). codes x.router_api_key) same)
  | inr other ↦
      let (i, given, same) = find_tenant-some token ts tenant (rw (other) at h) in
      (inr i, given, same)
]

find_tenant-none :
    (token : List ℕ) (tenants : List Tenant) (tenant : Tenant)
    → find_tenant token tenants ≡ none
    → In tenant tenants
    → is_key token tenant.router_api_key ≡ false
unfolding find_tenant
find_tenant-none token [] tenant h i = absurd i
find_tenant-none token (t ∷ ts) tenant h i = elim (Bool-cases (is_key token t.router_api_key)) [
  | inl match ↦ absurd (some-ne-none _ (rw (match) at h))
  | inr other ↦ elim i [
    | inl same ↦ rw (← same) other
    | inr later ↦ find_tenant-none token ts tenant (rw (other) at h) later
  ]
]

-- The tenant that a header authenticates is configured and its key is the token, which is not
-- empty; if no tenant is authenticated, no configured tenant has a key that is the token, or the
-- token is empty.
pub authenticate_lem :
    {F : Type 0} (config : Config F) (raw : String)
    → ((tenant : Tenant)
        → authenticate config raw ≡ some tenant
        → In tenant config.tenants
          × (token_of raw ≢ [])
          × (token_of raw ≡ codes tenant.router_api_key))
      × (authenticate config raw ≡ none
          → (tenant : Tenant) → In tenant config.tenants
          → (token_of raw ≡ []) ⊎ (token_of raw ≢ codes tenant.router_api_key))
authenticate_lem config raw = (
  λ tenant h. find_tenant-some (token_of raw) config.tenants tenant h,
  λ h tenant i. ground (
    arith,
    is_key_iff (token_of raw) tenant.router_api_key,
    find_tenant-none (token_of raw) config.tenants tenant h i,
  ),
)
