-- ===== src/Server/Chat/Asked.antt =====
-- What `Route` changes of the circuit breaker by its questions.
use outcome_router.Base.{
  String, ◌≡◌, refl, ◌∙◌, Option, none, some, List, [], ◌∷◌, Map, lookup, lookup-insert, ap, sym,
  ◌⊎◌, ◌==◌, eq_iff, arith, Bool-cases, inl, inr,
}
use outcome_router.Domain.{Time, Model}
use outcome_router.Provider.{Circuit, Client, refreshed, available}
use outcome_router.Provider.Breaker.{is_available, available-available}
use outcome_router.Server.Chat.{ask_one, ask_all}

abbrev pub refreshed_entry : Time → Option Circuit → Option Circuit
refreshed_entry now none = none
refreshed_entry now (some state) = some (refreshed now state)

refreshed_entry-twice :
    (now : Time) (entry : Option Circuit)
    → refreshed_entry now (refreshed_entry now entry) ≡ refreshed_entry now entry
refreshed_entry-twice now none = refl
refreshed_entry-twice now (some state) = ground arith

module _ (now : Time) where
  -- The circuit as it was, or with an open period that is over closed.
  abbrev pub IsAsked : Option Circuit → Option Circuit → Type 0
  IsAsked before after = (after ≡ before) ⊎ (after ≡ refreshed_entry now before)

  IsAsked-trans : (a b c : Option Circuit) → IsAsked a b → IsAsked b c → IsAsked a c
  IsAsked-trans a b c (inl e) (inl f) = inl (f ∙ e)
  IsAsked-trans a b c (inl e) (inr f) = inr (f ∙ ap (refreshed_entry now) e)
  IsAsked-trans a b c (inr e) (inl f) = inr (f ∙ e)
  IsAsked-trans a b c (inr e) (inr f) =
      inr (f ∙ ap (refreshed_entry now) e ∙ refreshed_entry-twice now a)

  available-IsAsked :
      (other : String) (client : Client) (id : String) (entry : Option Circuit)
      → lookup id client.circuits ≡ entry
      → IsAsked (lookup other client.circuits) (lookup other (available client now id).1.circuits)
  unfolding available
  available-IsAsked other client id none e = rw e (inl refl)
  available-IsAsked other client id (some state) e = elim (Bool-cases (id == other)) [
    | inl same ↦
        let there : lookup other client.circuits ≡ some state =
          ap (λ k. lookup k client.circuits) (sym ((eq_iff id other).0 same)) ∙ e in
        inr (rw (e, lookup-insert, same, there) refl)
    | inr differs ↦ rw (e, lookup-insert, differs) (inl refl)
  ]

module _ {F : Type 0} (now : Time) (other : String) where
  ask_one-is_available :
      (model : Option (Model F)) (client : Client)
      → is_available (ask_one now model client) now other ≡ is_available client now other
  ask_one-is_available none client = refl
  ask_one-is_available (some model) client = elim (Bool-cases model.enabled) [
    | inl enabled ↦ rw enabled (available-available client now model.provider other)
    | inr disabled ↦ rw disabled refl
  ]

  -- The questions of the loop over the models change no answer of the breaker at their time, so each of
  -- them is answered as at the start.
  pub ask_all-is_available :
      (catalog : Map (Model F)) (ids : List String) (client : Client)
      → is_available (ask_all catalog now ids client) now other ≡ is_available client now other
  unfolding ask_all
  ask_all-is_available catalog [] client = refl
  ask_all-is_available catalog (model_id ∷ ids) client =
      ask_all-is_available catalog ids (ask_one now (lookup model_id catalog) client)
      ∙ ask_one-is_available (lookup model_id catalog) client

  ask_one-IsAsked :
      (model : Option (Model F)) (client : Client)
      → IsAsked now
          (lookup other client.circuits)
          (lookup other (ask_one now model client).circuits)
  ask_one-IsAsked none client = inl refl
  ask_one-IsAsked (some model) client = elim (Bool-cases model.enabled) [
    | inl enabled ↦ rw enabled (available-IsAsked now other client model.provider _ refl)
    | inr disabled ↦ rw disabled (inl refl)
  ]

  -- The questions change no circuit but by closing an open period that is over.
  pub ask_all-IsAsked :
      (catalog : Map (Model F)) (ids : List String) (client : Client)
      → IsAsked now
          (lookup other client.circuits)
          (lookup other (ask_all catalog now ids client).circuits)
  unfolding ask_all
  ask_all-IsAsked catalog [] client = inl refl
  ask_all-IsAsked catalog (model_id ∷ ids) client =
      IsAsked-trans now _ _ _ (ask_one-IsAsked (lookup model_id catalog) client)
        (ask_all-IsAsked catalog ids (ask_one now (lookup model_id catalog) client))
