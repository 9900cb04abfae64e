-- ===== src/Startup/Policies.antt =====
-- The policies that a server starts with.
use mathlib.Core.List.{foldl}
use outcome_router.Base.{
  subst, String, ◌≡◌, refl, sym, ap, ◌∙◌, ◌↔◌, Bool, true, false, Option, none, some, List, [], ◌∷◌,
  ◌++◌, Map, lookup, insert, lookup-insert, ◌==◌, eq_iff, if◌then◌else◌, arith, In, Bool-cases,
  Option-cases, inl, inr, later_of, later_of_assoc, later_of-none,
}
use mathlib.Core.Option.{some-injective, some-ne-none}
use outcome_router.Config.{Config}
use outcome_router.Domain.{Policy}
use outcome_router.Routing.Registry.{add_policy, new_registry}
use outcome_router.Server.Outside.{Repository}
use outcome_router.Store.Files.{Codecs, FileStore, Reads, new_file_store, load_policies}
use outcome_router.Store.Files.Policies.{IsKeyed, new_file_store-IsKeyed, sorted-In}
use outcome_router.Startup.{start_registry}

module _ {F : Type 0} where
  -- The last policy of the list with this id.
  abbrev pub last_with : String → List (Policy F) → Option (Policy F)
  last_with id [] = none
  last_with id (p ∷ ps) =
      let later = last_with id ps in later_of (if p.id == id then some p else none) later

  last_with-append :
      (id : String) (ps qs : List (Policy F))
      → last_with id (ps ++ qs) ≡ later_of (last_with id ps) (last_with id qs)
  last_with-append id [] qs = later_of-none (last_with id qs)
  last_with-append id (p ∷ ps) qs = rw (last_with-append id ps qs) (
      sym
        (later_of_assoc (if p.id == id then some p else none) (last_with id ps) (last_with id qs)))

  last_with-In :
      (id : String) (ps : List (Policy F)) (p : Policy F)
      → last_with id ps ≡ some p
      → In p ps × (p.id ≡ id)
  last_with-In id [] p h = cc
  last_with-In id (q ∷ ps) p h = elim (Option-cases (last_with id ps)) [
    | inl none_later ↦ elim (Bool-cases (q.id == id)) [
      | inl here ↦
          let is : q ≡ p = some-injective _ _ (rw (none_later, here) at h) in
          (inl is, rw (← is) ((eq_iff q.id id).0 here))
      | inr other ↦ absurd (some-ne-none _ (sym (rw (none_later, other) at h)))
    ]
    | inr (r, later) ↦
        let is : r ≡ p = some-injective _ _ (rw (later) at h) in
        let (inside, named) = last_with-In id ps p (later ∙ ap some is) in (inr inside, named)
  ]

  last_with-none :
      (id : String) (ps : List (Policy F)) (p : Policy F)
      → last_with id ps ≡ none
      → In p ps
      → (p.id == id) ≡ false
  last_with-none id [] p h i = absurd i
  last_with-none id (q ∷ ps) p h i = ground (arith, last_with-none id ps p)

  -- A list that holds exactly the entries of a map finds what the map holds.
  last_with-lookup :
      (id : String) (ps : List (Policy F)) (entries : Map (Policy F))
      → ((p : Policy F) → In p ps ↔ (lookup p.id entries ≡ some p))
      → ((p : Policy F) → lookup id entries ≡ some p → p.id ≡ id)
      → last_with id ps ≡ lookup id entries
  last_with-lookup id ps entries same named = elim (Option-cases (last_with id ps)) [
    | inl missing ↦ elim (Option-cases (lookup id entries)) [
      | inl absent ↦ missing ∙ sym absent
      | inr (p, there) ↦
          let is = named p there in
          let inside = (same p).1 (subst (λ k. lookup k entries ≡ some p) (sym is) there) in
          let found : (p.id == id) ≡ true = (eq_iff p.id id).1 is in
          let not_found : (p.id == id) ≡ false = last_with-none id ps p missing inside in cc
    ]
    | inr (p, last) ↦
        let (inside, is) = last_with-In id ps p last in
        last ∙ sym (subst (λ k. lookup k entries ≡ some p) is ((same p).0 inside))
  ]

  foldl_add-lookup :
      (id : String) (ps : List (Policy F)) (entries : Map (Policy F))
      → lookup id (foldl add_policy entries ps) ≡ later_of (lookup id entries) (last_with id ps)
  foldl_add-lookup id [] entries = refl
  foldl_add-lookup id (p ∷ ps) entries =
      foldl_add-lookup id ps (insert p.id p entries)
      ∙ rw (lookup-insert p.id id p entries) (
          ap (λ o. later_of o (last_with id ps)) (inserted (p.id == id))
          ∙ later_of_assoc (lookup id entries) (if p.id == id then some p else none)
              (last_with id ps))
    where
      inserted :
          (b : Bool)
          → (if b then some p else lookup id entries)
            ≡ later_of (lookup id entries) (if b then some p else none)
      inserted true = refl
      inserted false = refl

module _ {F : Type 0} (codecs : Codecs F) where
  -- What a keyed store holds under an id has that id.
  keyed-id :
      (entries : Map (Policy F)) (id : String) (p : Policy F)
      → IsKeyed entries
      → lookup id entries ≡ some p
      → p.id ≡ id
  unfolding lookup
  keyed-id [] id p keyed h = cc
  keyed-id ((key, q) ∷ rest) id p (same, fresh, keyed) h =
      ground (arith, keyed-id rest id p keyed, eq_iff key id)

  -- The registry that a server starts with from a directory that opens: under each id the policy that
  -- the store holds, and the last configured one with the id where the store holds none.
  pub start_registry-lookup :
      {S : Type 0} (config : Config F) (repository : Repository F S) (directory : String)
      (made : Option String) (reads : Reads) (store : FileStore F) (id : String)
      → new_file_store codecs directory made reads ≡ inr store
      → lookup id (start_registry config repository (load_policies store)).policies
        ≡ later_of (last_with id config.policies) (lookup id store.policies)
  unfolding new_registry lookup
  start_registry-lookup config repository directory made reads store id opens =
      let keyed = new_file_store-IsKeyed codecs directory made reads store opens in
      let persisted =
        last_with-lookup id (load_policies store) store.policies
          (λ p. sorted-In codecs store p keyed)
          (λ p there. keyed-id store.policies id p keyed there) in
      foldl_add-lookup id (config.policies ++ load_policies store) []
      ∙ sym (later_of-none (last_with id (config.policies ++ load_policies store)))
      ∙ last_with-append id config.policies (load_policies store)
      ∙ ap (later_of (last_with id config.policies)) persisted
