-- ===== src/Routing/Registry.antt =====
-- internal/routing/registry.go: the policies of all tenants. The mutex makes each method one step.
pub mod Tenants
pub mod Listing
use mathlib.Core.List.{foldl}
use Prim.Native.String.{compare as compare_text}
use Prim.Native.Nat.{Ordering}
use outcome_router.Base.{
  String, Bool, true, false, not, ◌&&◌, ◌||◌, Option, none, some, List, [], ◌∷◌, Map, values,
  lookup, insert, if◌then◌else◌, ◌==◌, ltb,
}
use outcome_router.Double.{Double}
use outcome_router.Domain.{Model, Policy}
use outcome_router.Domain.Validate.{PolicyError, validate}
use outcome_router.Routing.Select.{sort_slice}

-- `SavePolicy` of the saver: the error that it returns, and the state that it leaves.
abbrev pub Saver : Type 0 → Type 0 → Type 0
Saver F S = Policy F → S → Option String × S

pub record Registry (F S : Type 0) : Type 0 where
  pub policies : Map (Policy F)
  pub catalog : Map (Model F)
  pub saver : Option (Saver F S)

pub data PutError : Type 0 where
  invalid : PolicyError → PutError
  other_tenant : PutError
  not_saved : String → PutError

abbrev pub text_lt : String → String → Bool
text_lt s t = elim (compare_text s t) [ Ordering.lt ↦ true | _ ↦ false ]

module _ {F : Type 0} where
  abbrev pub add_policy : Map (Policy F) → Policy F → Map (Policy F)
  add_policy policies policy = insert policy.id policy policies

  of_tenant : String → List (Policy F) → List (Policy F)
  of_tenant tenant_id [] = []
  of_tenant tenant_id (policy ∷ ps) =
      let rest = of_tenant tenant_id ps in
      if tenant_id == "" || policy.tenant_id == tenant_id then policy ∷ rest else rest

  abbrev earlier : Policy F → Policy F → Bool
  earlier p q = if p.id == q.id then ltb p.created_at q.created_at else text_lt p.id q.id

  -- A policy of the same id that another tenant owns.
  abbrev pub is_taken : Option (Policy F) → Policy F → Bool
  is_taken none policy = false
  is_taken (some current) policy = not (current.tenant_id == policy.tenant_id)

module _ {F S : Type 0} where
  unfoldable pub new_registry : Map (Model F) → List (Policy F) → Option (Saver F S) → Registry F S
  new_registry catalog initial saver = record {
    policies = foldl add_policy [] initial;
    catalog = catalog;
    saver = saver;
  }

  -- The policy and Go's second result, false where the tenant is another. Go returns the policy in
  -- that case too.
  unfoldable pub get : Registry F S → String → String → Option (Policy F) × Bool
  get r id tenant_id = elim (lookup id r.policies) [
    | none ↦ (none, false)
    | some policy ↦ (some policy, policy.tenant_id == tenant_id)
  ]

  unfoldable pub list : Registry F S → String → List (Policy F)
  unfolding values of_tenant
  list r tenant_id = sort_slice earlier (of_tenant tenant_id (values r.policies))

  abbrev save_with : Option (Saver F S) → Policy F → S → Option String × S
  save_with none policy store = (none, store)
  save_with (some save) policy store = save policy store

  -- The part of `Put` behind the checks.
  abbrev store_policy :
      Registry F S → Policy F → Option String × S → Option PutError × Registry F S × S
  store_policy r policy (some e, store) = (some (not_saved e), r, store)
  store_policy r policy (none, store) =
      (none, record r { policies = insert policy.id policy r.policies }, store)

module _ {F S : Type 0} ⦃d : Double F⦄ where
  unfoldable pub put :
      (Map F → Map F) → Registry F S → Policy F → S → Option PutError × Registry F S × S
  put visit r policy store = elim (validate visit policy r.catalog) [
    | some e ↦ (some (invalid e), r, store)
    | none ↦
        if is_taken (lookup policy.id r.policies) policy
        then (some other_tenant, r, store)
        else store_policy r policy (save_with r.saver policy store)
  ]
