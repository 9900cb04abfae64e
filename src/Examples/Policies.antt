-- ===== src/Examples/Policies.antt =====
-- Validation and the registry.
use outcome_router.Base.{
  String, ◌≡◌, ◌≢◌, ◌⊎◌, ◌↔◌, none, some, [], ◌∷◌, Map, lookup, In, true, false, ◌==◌,
}
use outcome_router.Double.Fixed.{Fixed, fixed_double}
use outcome_router.Domain.Validate.{validate}
use outcome_router.Domain.Validate.Accepts.{IsOrderOf, IsAccepted, validate_iff}
use outcome_router.Routing.Registry.{Registry, put, get, list}
use outcome_router.Routing.Registry.Tenants.{put_lem}
use outcome_router.Routing.Registry.Listing.{Holds, list_iff}
use outcome_router.Examples.World.{catalog, policy}

abbrev pub as_listed : Map Fixed → Map Fixed
as_listed m = m

as_listed-IsOrderOf : IsOrderOf as_listed
as_listed-IsOrderOf = record { keeps = λ m x h. h; adds_nothing = λ m x h. h }

validate_iff_example : (validate as_listed policy catalog ≡ none) ↔ IsAccepted policy catalog
validate_iff_example = validate_iff as_listed policy catalog as_listed-IsOrderOf

abbrev empty_registry : Registry Fixed Unit
empty_registry = record { policies = []; catalog = catalog; saver = none }

put_lem_example :
    ((put as_listed empty_registry policy tt).0 ≡ none
      → (get (put as_listed empty_registry policy tt).1 "policy" "tenant" ≡ (some policy, true))
        × ((k : String)
            → ("policy" == k) ≡ false
            → lookup k (put as_listed empty_registry policy tt).1.policies
              ≡ lookup k empty_registry.policies))
    × ((put as_listed empty_registry policy tt).0 ≢ none
        → (put as_listed empty_registry policy tt).1 ≡ empty_registry)
put_lem_example = put_lem as_listed empty_registry policy tt

abbrev stocked_tenant : String
stocked_tenant = "tenant"

abbrev stocked : Registry Fixed Unit
stocked = record empty_registry { policies = ("policy", policy) ∷ [] }

list_iff_example : In policy (list stocked "tenant") ↔ (
    Holds stocked.policies policy × ((stocked_tenant ≡ "") ⊎ (policy.tenant_id ≡ stocked_tenant)))
list_iff_example = list_iff stocked "tenant" policy
