-- ===== src/Server/Attempts/Exhausted.antt =====
-- The loop gives up only when it has to.
use mathlib.Core.Option.{some-injective, some-ne-none}
use outcome_router.Base.{
  ℕ, String, ◌≡◌, refl, sym, ap, ◌∙◌, ◌⊎◌, inl, inr, Bool, true, false, not, Option, none, some,
  List, [], ◌∷◌, ◌++◌, lookup, Bool-cases, Option-cases, In, In-append_left, In-append_right, subst,
}
use outcome_router.Config.{Provider}
use outcome_router.Domain.{Model}
use outcome_router.Provider.{Client}
use outcome_router.Provider.Calls.{Response, Answer, responded, gave_up, retryable}
use outcome_router.Server.Attempts.{
  AttemptError, provider_missing, body_error, call_error, Setting, Attempts, Progress, continue,
  break, conclude, send_body, try_provider, try_model, attempt, attempt_all,
}
use outcome_router.Server.Attempts.Allowed.{IsCallable}

-- An error after which the loop stops: the body cannot be made, or the call's error is not worth
-- another attempt.
abbrev pub is_terminal : Option AttemptError → Bool
is_terminal none = false
is_terminal (some (provider_missing name)) = false
is_terminal (some (body_error e)) = true
is_terminal (some (call_error e)) = not (retryable e)

module _ {F : Type 0} (s : Setting F) where
  -- What a turn does that does not end the loop for good: it keeps the list of the models that were
  -- called, and a model that may be called is on it.
  abbrev IsTried : String → Attempts F → Progress F → Type 0
  IsTried model_id st (break after) =
      (is_terminal after.last_error ≡ true) ⊎ ((a : Model F × Response) × (after.response ≡ some a))
  IsTried model_id st (continue after) =
      ((id : String) → In id st.attempted → In id after.attempted)
      × ((model : Model F) → IsCallable s model_id model → In model_id after.attempted)

  conclude-IsTried :
      (model_id : String) (before : Attempts F) (model : Model F) (result : Answer × Client)
      → IsTried model_id before
          (conclude model (record before { attempted = before.attempted ++ model_id ∷ [] }) result)
  conclude-IsTried model_id before model (responded r, client) = inr ((model, r), refl)
  conclude-IsTried model_id before model (gave_up e, client) = elim (Bool-cases (retryable e)) [
    | inl again ↦ rw again (
      λ id i. In-append_left before.attempted (model_id ∷ []) id i,
      λ m c. In-append_right before.attempted (model_id ∷ []) model_id (inl refl),
    )
    | inr final ↦ rw final (inl (rw final refl))
  ]

  send_body-IsTried :
      (model_id : String) (st : Attempts F) (model : Model F) (provider : Provider)
      (body : String ⊎ List ℕ)
      → IsTried model_id st (send_body s provider model model_id st body)
  send_body-IsTried model_id st model provider (inl e) = inl refl
  send_body-IsTried model_id st model provider (inr body) = conclude-IsTried model_id st model _

  -- A turn that passes a model over, which may not be called.
  passed_over :
      (model_id : String) (st after : Attempts F)
      → after.attempted ≡ st.attempted
      → ((model : Model F) → IsCallable s model_id model → ⊥)
      → IsTried model_id st (continue after)
  passed_over model_id st after same never =
      (λ id i. subst (In id) (sym same) i, λ model c. absurd (never model c))

  try_provider-IsTried :
      (model_id : String) (st : Attempts F) (model : Model F) (found : Option Provider)
      → lookup model_id s.catalog ≡ some model
      → lookup model.provider s.tenant.providers ≡ found
      → IsTried model_id st (try_provider s model model_id st found)
  try_provider-IsTried model_id st model none here e =
      let after : Attempts F = record st { last_error = some (provider_missing model.provider) } in
      passed_over model_id st after refl (λ m c.
        let same : model ≡ m = some-injective _ _ (sym here ∙ c.in_catalog) in
        some-ne-none _ (
          sym c.has_provider
          ∙ ap (λ (x : Model F). lookup x.provider s.tenant.providers) (sym same)
          ∙ e))
  try_provider-IsTried model_id st model (some provider) here e =
      send_body-IsTried model_id st model provider _

  try_model-IsTried :
      (model_id : String) (st : Attempts F) (found : Option (Model F))
      → lookup model_id s.catalog ≡ found
      → IsTried model_id st (try_model s model_id st found)
  try_model-IsTried model_id st none e =
      passed_over model_id st st refl (λ m c. absurd (some-ne-none _ (sym c.in_catalog ∙ e)))
  try_model-IsTried model_id st (some model) e = try_provider-IsTried model_id st model _ e refl

  attempt-IsTried :
      (model_id : String) (st : Attempts F) → IsTried model_id st (attempt s model_id st)
  unfolding attempt
  attempt-IsTried model_id st = elim (Option-cases (lookup model_id s.predictions)) [
    | inl unknown ↦ rw unknown (try_model-IsTried model_id st _ refl)
    | inr (p, known) ↦ elim (Bool-cases p.eligible) [
      | inl eligible ↦ rw (known, eligible) (try_model-IsTried model_id st _ refl)
      | inr barred ↦
          rw (known, barred)
            (passed_over model_id st st refl (λ m c. let eligible = c.is_eligible p known in cc))
    ]
  ]

  -- What the rest of the loop does when it ends without a response and not at a terminal error.
  abbrev Finishes : List String → Attempts F → Attempts F → Type 0
  Finishes ids st after =
      after.response ≡ none
      → is_terminal after.last_error ≡ false
      → ((id : String) → In id st.attempted → In id after.attempted)
        × ((id : String) (model : Model F)
            → In id ids
            → IsCallable s id model
            → In id after.attempted)

  turn-Finishes :
      (model_id : String) (ids : List String) (st : Attempts F) (p : Progress F)
      → IsTried model_id st p
      → ((after : Attempts F) → Finishes ids after (attempt_all s ids after))
      → Finishes
          (model_id ∷ ids)
          st
          (elim p [ continue after ↦ attempt_all s ids after | break after ↦ after ])
  turn-Finishes model_id ids st (break after) (inl final) rest unanswered open_end = cc
  turn-Finishes model_id ids st (break after) (inr (a, e)) rest unanswered open_end = cc
  turn-Finishes model_id ids st (continue after) (keeps, tries) rest unanswered open_end =
      let (keeps', tries') = rest after unanswered open_end in
      (
        λ id i. keeps' id (keeps id i),
        λ id model i c. elim i [
          | inl same ↦ keeps' id (
              subst (λ x. In x after.attempted) same
                (tries model (subst (λ x. IsCallable s x model) (sym same) c)))
          | inr later ↦ tries' id model later c
        ],
      )

  attempt_all-Finishes :
      (ids : List String) (st : Attempts F) → Finishes ids st (attempt_all s ids st)
  unfolding attempt_all
  attempt_all-Finishes [] st unanswered open_end = (λ id i. i, λ id model i c. absurd i)
  attempt_all-Finishes (model_id ∷ ids) st unanswered open_end =
      turn-Finishes model_id ids st (attempt s model_id st) (attempt-IsTried model_id st)
        (λ after. attempt_all-Finishes ids after) unanswered open_end

  -- If the loop ends without a response and not at an error that stops it, every model of the order
  -- that may be called has been called, whatever the others answered.
  pub attempt_all-exhausts :
      (ids : List String) (st : Attempts F) (model_id : String) (model : Model F)
      → (attempt_all s ids st).response ≡ none
      → is_terminal (attempt_all s ids st).last_error ≡ false
      → In model_id ids
      → IsCallable s model_id model
      → In model_id (attempt_all s ids st).attempted
  attempt_all-exhausts ids st model_id model unanswered open_end i c =
      let (keeps, tries) = attempt_all-Finishes ids st unanswered open_end in
      tries model_id model i c
