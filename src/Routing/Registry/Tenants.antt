-- ===== src/Routing/Registry/Tenants.antt =====
-- What `Put` keeps: every policy under its own id, valid, and with the tenant that it came with.
use mathlib.Core.Option.{some-injective, some-ne-none}
use text.Mathlib.TextPositions.{eq_refl}
use outcome_router.Base.{
  String, ◌≡◌, ◌≢◌, refl, sym, ◌∙◌, ap, ◌⊎◌, inl, inr, true, false, Option, none, some, List, [],
  ◌∷◌, Map, arith, lookup, insert, lookup-insert, lookup-insert_self, eq_iff, ◌==◌, Bool-cases,
  Option-cases,
}
use outcome_router.Double.{Double}
use outcome_router.Domain.{Policy}
use outcome_router.Domain.Validate.{validate}
use outcome_router.Routing.Registry.{Registry, Saver, put, save_with, store_policy, get, is_taken}

module _ {F S : Type 0} ⦃d : Double F⦄ (visit : Map F → Map F) where
  pub record IsWellKept (r : Registry F S) : Type 0 where
    pub under_id : (k : String) (p : Policy F) → lookup k r.policies ≡ some p → p.id ≡ k
    pub valid :
        (k : String) (p : Policy F)
        → lookup k r.policies ≡ some p
        → validate visit p r.catalog ≡ none

  -- `Put` either leaves the registry alone and returns an error, or adds a valid policy whose id is
  -- free or owned by the same tenant.
  put_cases :
      (r : Registry F S) (policy : Policy F) (store : S)
      → ((put visit r policy store).0 ≢ none × ((put visit r policy store).1 ≡ r))
        ⊎ (((put visit r policy store).0 ≡ none)
            × ((put visit r policy store).1
                ≡ record r { policies = insert policy.id policy r.policies })
            × (validate visit policy r.catalog ≡ none)
            × (is_taken (lookup policy.id r.policies) policy ≡ false))
  unfolding put
  put_cases r policy store = ground arith

  store_policy-saved :
      (r : Registry F S) (policy : Policy F) (result : Option String × S)
      → (store_policy r policy result).0 ≡ none
      → (result.0 ≡ none) × ((store_policy r policy result).2 ≡ result.1)
  store_policy-saved r policy (some e, store) h = absurd (some-ne-none _ h)
  store_policy-saved r policy (none, store) h = (refl, refl)

  -- A `Put` without an error has saved the policy, where there is a saver.
  pub put_saved :
      (r : Registry F S) (policy : Policy F) (store : S) (save : Saver F S)
      → r.saver ≡ some save
      → (put visit r policy store).0 ≡ none
      → ((save policy store).0 ≡ none) × ((put visit r policy store).2 ≡ (save policy store).1)
  unfolding put
  put_saved r policy store save saver h = elim (Option-cases (validate visit policy r.catalog)) [
    | inl ok ↦ elim (Bool-cases (is_taken (lookup policy.id r.policies) policy)) [
      | inl taken ↦ absurd (some-ne-none _ (rw (ok, taken, put) at h))
      | inr free ↦
          let (done, stored) =
            store_policy-saved r policy (save_with r.saver policy store)
              (rw (ok, free, put) at h) in
          let same =
            ap (λ (use_saver : Option (Saver F S)). save_with use_saver policy store) saver in
          (
            sym (ap (λ (x : Option String × S). x.0) same) ∙ done,
            rw (ok, free, put) (stored ∙ ap (λ (x : Option String × S). x.1) same),
          )
    ]
    | inr (e, bad) ↦ absurd (some-ne-none _ (rw (bad, put) at h))
  ]

  -- `Put` keeps a registry in which every policy stands under its id and is valid.
  pub put-IsWellKept :
      (r : Registry F S) (policy : Policy F) (store : S)
      → IsWellKept r
      → IsWellKept (put visit r policy store).1
  put-IsWellKept r policy store w = elim (put_cases r policy store) [
    | inl (_, same) ↦ rw same w
    | inr (_, added, ok, _) ↦ rw added (record {
      under_id = λ k p h. elim (Bool-cases (policy.id == k)) [
        | inl same ↦
            rw (← some-injective _ _ (rw (lookup-insert, same) at h)) ((eq_iff policy.id k).0 same)
        | inr other ↦ w.under_id k p (rw (lookup-insert, other) at h)
      ];
      valid = λ k p h. elim (Bool-cases (policy.id == k)) [
        | inl same ↦ rw (← some-injective _ _ (rw (lookup-insert, same) at h)) ok
        | inr other ↦ w.valid k p (rw (lookup-insert, other) at h)
      ];
    })
  ]

  -- The registry after a row of calls, whatever their results.
  unfoldable pub put_all : Registry F S → List (Policy F) → S → Registry F S × S
  put_all r [] store = (r, store)
  put_all r (policy ∷ ps) store =
      let (e, r', store') = put visit r policy store in put_all r' ps store'

  -- One call leaves every policy in place, perhaps in another version, with the tenant it has.
  pub put-tenant :
      (r : Registry F S) (policy : Policy F) (store : S) (k : String) (p : Policy F)
      → lookup k r.policies ≡ some p
      → (q : Policy F) × (lookup k (put visit r policy store).1.policies ≡ some q)
        × (q.tenant_id ≡ p.tenant_id)
  put-tenant r policy store k p h = elim (put_cases r policy store) [
    | inl (_, same) ↦ (p, rw same h, refl)
    | inr (_, added, _, free) ↦ elim (Bool-cases (policy.id == k)) [
      | inl same ↦
          let policy-k : policy.id ≡ k = (eq_iff policy.id k).0 same in
          (
            policy,
            rw (added, lookup-insert, same),
            ground (
              arith,
              eq_iff p.tenant_id policy.tenant_id,
              ap (λ j. lookup j r.policies) policy-k,
            ),
          )
      | inr other ↦ (p, rw (added, lookup-insert, other) h, refl)
    ]
  ]

  -- Whatever policies are put, in whatever order, a policy of the registry stays there under its id
  -- and never changes its tenant.
  pub put_all-tenant :
      (r : Registry F S) (ps : List (Policy F)) (store : S) (k : String) (p : Policy F)
      → lookup k r.policies ≡ some p
      → (q : Policy F) × (lookup k (put_all r ps store).0.policies ≡ some q)
        × (q.tenant_id ≡ p.tenant_id)
  unfolding put_all
  put_all-tenant r [] store k p h = (p, h, refl)
  put_all-tenant r (policy ∷ ps) store k p h =
      let (e, r', store') = put visit r policy store in
      let (q, there, same) = put-tenant r policy store k p h in
      let (q', there', same') = put_all-tenant r' ps store' k q there in (q', there', same' ∙ same)

  get-found :
      (r : Registry F S) (policy : Policy F)
      → lookup policy.id r.policies ≡ some policy
      → get r policy.id policy.tenant_id ≡ (some policy, true)
  unfolding get
  get-found r policy h = rw (h, get) (rw eq_refl)

  -- After a call that returns no error the policy is what its tenant gets under its id, and no
  -- other id has changed; a call that returns an error leaves the registry as it was.
  pub put_lem :
      (r : Registry F S) (policy : Policy F) (store : S)
      → ((put visit r policy store).0 ≡ none
          → (get (put visit r policy store).1 policy.id policy.tenant_id ≡ (some policy, true))
            × ((k : String)
                → (policy.id == k) ≡ false
                → lookup k (put visit r policy store).1.policies ≡ lookup k r.policies))
        × ((put visit r policy store).0 ≢ none → (put visit r policy store).1 ≡ r)
  put_lem r policy store = elim (put_cases r policy store) [
    | inl (failed, same) ↦ (λ h. absurd (failed h), λ _. same)
    | inr (done, added, _, _) ↦ (
      λ _. (
        rw added (get-found _ policy (lookup-insert_self policy.id policy r.policies)),
        λ k other. rw (added, lookup-insert, other),
      ),
      λ failed. absurd (failed done),
    )
  ]
