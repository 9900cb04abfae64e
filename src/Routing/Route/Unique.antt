-- ===== src/Routing/Route/Unique.antt =====
-- `unique` keeps the first of equal texts, drops the empty text, and loses nothing else.
use outcome_router.Base.{
  String, ◌≡◌, refl, inl, inr, false, not, ◌&&◌, List, [], ◌∷◌, arith, Bool-cases, eq_iff, contains,
  IsFresh, AreDistinct, ◌==◌, In,
}
use outcome_router.Domain.{Policy}
use outcome_router.Routing.Route.{unique_from, unique, policy_models}

unique_from-IsFresh : (values seen : List String) → IsFresh seen (unique_from seen values)
unfolding unique_from
unique_from-IsFresh [] seen = tt
unique_from-IsFresh (v ∷ vs) seen = elim (Bool-cases (not (v == "") && not (contains seen v))) [
  | inl kept ↦ rw kept (ground arith, unique_from-IsFresh vs (v ∷ seen))
  | inr dropped ↦ rw dropped (unique_from-IsFresh vs seen)
]

unique_from-In :
    (values seen : List String) (x : String)
    → (x == "") ≡ false
    → contains seen x ≡ false
    → In x values
    → In x (unique_from seen values)
unfolding unique_from
unique_from-In [] seen x n s h = h
unique_from-In (v ∷ vs) seen x n s h = elim (Bool-cases (not (v == "") && not (contains seen v))) [
  | inl kept ↦ rw kept (ground (arith, eq_iff v x, unique_from-In vs (v ∷ seen) x n))
  | inr dropped ↦ rw dropped (ground (arith, unique_from-In vs seen x n s))
]

In-unique_from :
    (values seen : List String) (x : String) → In x (unique_from seen values) → In x values
unfolding unique_from
In-unique_from [] seen x h = h
In-unique_from (v ∷ vs) seen x h = elim (Bool-cases (not (v == "") && not (contains seen v))) [
  | inl kept ↦ elim (rw kept at h) [
    | inl e ↦ inl e
    | inr r ↦ inr (In-unique_from vs (v ∷ seen) x r)
  ]
  | inr dropped ↦ inr (In-unique_from vs seen x (rw dropped at h))
]

unique_from-named :
    (values seen : List String) (x : String) → In x (unique_from seen values) → (x == "") ≡ false
unfolding unique_from
unique_from-named [] seen x h = absurd h
unique_from-named (v ∷ vs) seen x h = elim (Bool-cases (not (v == "") && not (contains seen v))) [
  | inl kept ↦ elim (rw kept at h) [
    | inl same ↦ rw (← same) (ground arith)
    | inr r ↦ unique_from-named vs (v ∷ seen) x r
  ]
  | inr dropped ↦ unique_from-named vs seen x (rw dropped at h)
]

-- The list that `Route` visits holds no model twice and no empty id, and exactly the other ids that
-- the policy names.
pub unique_lem :
    (values : List String)
    → AreDistinct (unique values)
      × ((x : String) → In x (unique values) → (In x values) × ((x == "") ≡ false))
      × ((x : String) → In x values → (x == "") ≡ false → In x (unique values))
unfolding unique
unique_lem values = (
  unique_from-IsFresh values [],
  λ x h. (In-unique_from values [] x h, unique_from-named values [] x h),
  λ x h n. unique_from-In values [] x n refl h,
)

pub incumbent-In :
    {F : Type 0} (policy : Policy F)
    → (policy.incumbent_model == "") ≡ false
    → In policy.incumbent_model (policy_models policy)
incumbent-In policy n = (unique_lem _).2 policy.incumbent_model (inl refl) n
