-- ===== src/Server/Handle/Outcomes.antt =====
-- Which outcomes are recorded.
use outcome_router.Base.{
  String, ◌≡◌, refl, ◌⊎◌, inl, inr, Bool, true, false, not, ◌&&◌, ◌||◌, Option, none, some, arith,
  ◌==◌, Bool-cases,
}
use outcome_router.Config.{Tenant, Config}
use outcome_router.Config.Access.{authenticate}
use outcome_router.Domain.Validate.{is_blank}
use outcome_router.Server.Outside.{Repository}
use outcome_router.Server.Handle.{
  PostedOutcome, Stamp, stamped, is_known, outcome_saved, with_outcome, outcome_of, post_outcome,
}

module _ {F S : Type 0} (repository : Repository F S) (stamp : Stamp) where
  -- The payload names a decision or a trace, a type and a value, and the decision that it names is the
  -- tenant's.
  abbrev IsComplete : Tenant → S → PostedOutcome F → Type 0
  IsComplete tenant store posted =
      ((posted.outcome.decision_id == "" && posted.outcome.trace_id == "") ≡ false)
      × (is_blank posted.outcome.type ≡ false)
      × (posted.has_value ≡ true)
      × (is_known repository store tenant posted.outcome ≡ true)

  complete-of_guards :
      (a b v k : Bool)
      → a ≡ false
      → (b || not v) ≡ false
      → not k ≡ false
      → (a ≡ false) × (b ≡ false) × (v ≡ true) × (k ≡ true)
  complete-of_guards a b v k h1 h2 h3 = ground arith

  outcome_saved-store : (result : Option String × S) → (outcome_saved stamp result).1 ≡ result.1
  outcome_saved-store (some e, store) = refl
  outcome_saved-store (none, store) = refl

  abbrev pub IsSaved : Tenant → S → PostedOutcome F → S → Type 0
  IsSaved tenant store p after =
      IsComplete tenant store p
      × ((stamped stamp tenant p.outcome).tenant_id ≡ tenant.id)
      × (after ≡ (repository.save_outcome (stamped stamp tenant p.outcome) store).1)

  payload-IsSaved :
      (tenant : Tenant) (store : S) (p : PostedOutcome F)
      → ((with_outcome repository stamp tenant store (some p)).1 ≡ store)
        ⊎ IsSaved tenant store p (with_outcome repository stamp tenant store (some p)).1
  payload-IsSaved tenant store p =
      let o = p.outcome in
      elim (Bool-cases (o.decision_id == "" && o.trace_id == "")) [
        | inl unnamed ↦ rw (unnamed) (inl refl)
        | inr named ↦ elim (Bool-cases (is_blank o.type || not p.has_value)) [
          | inl hollow ↦ rw (named, hollow) (inl refl)
          | inr filled ↦ elim (Bool-cases (not (is_known repository store tenant o))) [
            | inl unknown ↦ rw (named, filled, unknown) (inl refl)
            | inr known ↦
                let (named', typed, valued, there) =
                  complete-of_guards (o.decision_id == "" && o.trace_id == "") (is_blank o.type)
                    p.has_value (is_known repository store tenant o) named filled known in
                rw (named, filled, known)
                  (inr (
                    (refl, typed, valued, there),
                    refl,
                    outcome_saved-store (repository.save_outcome (stamped stamp tenant o) store),
                  ))
          ]
        ]
      ]

  tenant-IsSaved :
      (store : S) (posted : Option (PostedOutcome F)) (found : Option Tenant)
      → ((outcome_of repository stamp store posted found).1 ≡ store)
        ⊎ ((tenant : Tenant) × (p : PostedOutcome F) × (found ≡ some tenant)
            × (posted ≡ some p)
            × IsSaved tenant store p (outcome_of repository stamp store posted found).1)
  tenant-IsSaved store posted none = inl refl
  tenant-IsSaved store none (some tenant) = inl refl
  tenant-IsSaved store (some p) (some tenant) = elim (payload-IsSaved tenant store p) [
    | inl same ↦ inl same
    | inr saved ↦ inr (tenant, p, refl, refl, saved)
  ]

  -- An outcome reaches the store only from an authenticated tenant, complete, with the tenant's id
  -- in place of the payload's, and in one save; else the store is as it was.
  pub post_outcome_lem :
      (config : Config F) (authorization : String) (posted : Option (PostedOutcome F)) (store : S)
      → ((post_outcome repository stamp config authorization posted store).1 ≡ store)
        ⊎ ((tenant : Tenant) × (p : PostedOutcome F) × (authenticate config authorization
              ≡ some tenant)
            × (posted ≡ some p)
            × IsSaved tenant store p
                (post_outcome repository stamp config authorization posted store).1)
  unfolding post_outcome
  post_outcome_lem config authorization posted store =
      tenant-IsSaved store posted (authenticate config authorization)
