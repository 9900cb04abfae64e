-- ===== src/Routing/Registry/Listing.antt =====
-- A listing holds exactly the policies of its tenant.
use outcome_router.Base.{
  String, ◌≡◌, ◌↔◌, ◌⊎◌, true, ◌||◌, List, [], ◌∷◌, Map, values, arith, In, ◌==◌, eq_iff,
}
use outcome_router.Domain.{Policy}
use outcome_router.Routing.Select.Members.{In-sort_slice}
use outcome_router.Routing.Select.Sort.{sort_slice-In}
use outcome_router.Routing.Registry.{Registry, earlier, of_tenant, list}

-- A policy that the map holds.
abbrev pub Holds : {F : Type 0} → Map (Policy F) → Policy F → Type 0
Holds [] p = ⊥
Holds ((k, q) ∷ m) p = (q ≡ p) ⊎ Holds m p

values-Holds : {F : Type 0} (m : Map (Policy F)) (p : Policy F) → In p (values m) ↔ Holds m p
unfolding values
values-Holds [] p = (λ h. h, λ h. h)
values-Holds ((k, q) ∷ m) p = ground (arith, values-Holds m p)

abbrev IsVisible : {F : Type 0} → String → Policy F → Type 0
IsVisible tenant_id p = (tenant_id == "" || p.tenant_id == tenant_id) ≡ true

of_tenant-In :
    {F : Type 0} (tenant_id : String) (ps : List (Policy F)) (p : Policy F)
    → In p (of_tenant tenant_id ps) ↔ (In p ps × IsVisible tenant_id p)
unfolding of_tenant
of_tenant-In tenant_id [] p = (λ h. absurd h, λ h. h.0)
of_tenant-In tenant_id (q ∷ ps) p = ground (arith, of_tenant-In tenant_id ps p)

-- A listing shows a policy exactly when the registry holds it and it belongs to the tenant, or the
-- tenant is the empty text.
pub list_iff :
    {F S : Type 0} (r : Registry F S) (tenant_id : String) (p : Policy F)
    → In p (list r tenant_id)
      ↔ (Holds r.policies p × ((tenant_id ≡ "") ⊎ (p.tenant_id ≡ tenant_id)))
unfolding list
list_iff r tenant_id p = ground (
  arith,
  In-sort_slice earlier (of_tenant tenant_id (values r.policies)) p,
  sort_slice-In earlier (of_tenant tenant_id (values r.policies)) p,
  of_tenant-In tenant_id (values r.policies) p,
  values-Holds r.policies p,
  eq_iff tenant_id "",
  eq_iff p.tenant_id tenant_id,
)
