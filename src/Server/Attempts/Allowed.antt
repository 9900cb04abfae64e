-- ===== src/Server/Attempts/Allowed.antt =====
-- Which models are called, and in which order.
use mathlib.Core.List.{append-nil, append_assoc}
use outcome_router.Base.{
  ℕ, String, ◌≡◌, refl, sym, ap, ◌∙◌, ◌⊎◌, inl, inr, Bool, true, false, not, arith, Option, none,
  some, List, [], ◌∷◌, ◌++◌, lookup, Bool-cases, Option-cases, length,
}
use outcome_router.Base.Int.{pos, ◌≤ℤ◌, ◌<ℤ◌}
use outcome_router.Config.{Provider}
use mathlib.Core.Option.{some-injective}
use outcome_router.Domain.{Model, Prediction}
use outcome_router.Provider.{Client}
use outcome_router.Provider.Calls.{Response, Answer, responded, gave_up, call, retryable}
use outcome_router.Provider.Calls.Recorded.{call_success}
use outcome_router.Routing.Body.{body_for_model}
use outcome_router.Server.Attempts.{
  Setting, Attempts, Progress, continue, break, is_skipped, conclude, send_body, try_model, attempt,
  attempt_all,
}

kept-not : (b : Bool) → not b ≡ false → b ≡ true
kept-not b h = ground arith

module _ {F : Type 0} (s : Setting F) where
  -- The model stands in the catalog, the tenant has its provider, and the engine, if it looked at the
  -- model, found it eligible.
  pub record IsCallable (model_id : String) (model : Model F) : Type 0 where
    pub in_catalog : lookup model_id s.catalog ≡ some model
    pub provider : Provider
    pub has_provider : lookup model.provider s.tenant.providers ≡ some provider
    pub is_eligible :
        (p : Prediction F) → lookup model_id s.predictions ≡ some p → p.eligible ≡ true

  eligible-of_kept :
      (found : Option (Prediction F)) (p : Prediction F)
      → is_skipped found ≡ false
      → found ≡ some p
      → p.eligible ≡ true
  eligible-of_kept none p h e = cc
  eligible-of_kept (some q) p h e =
      ap (λ (x : Prediction F). x.eligible) (sym (some-injective _ _ e)) ∙ kept-not q.eligible h

  abbrev state_of : Progress F → Attempts F
  state_of (continue st) = st
  state_of (break st) = st

  -- A response of the model, with a status from 200 to 299.
  abbrev pub IsAnswer : Model F → Option (Model F × Response) → Type 0
  IsAnswer model none = ⊥
  IsAnswer model (some (m, r)) =
      (m ≡ model) × (pos 200 ≤ℤ r.status_code) × (r.status_code <ℤ pos 300)

  -- Only the end of the loop has a response.
  abbrev IsConcluded : Model F → Progress F → Type 0
  IsConcluded model (continue st) = st.response ≡ none
  IsConcluded model (break st) = (st.response ≡ none) ⊎ IsAnswer model st.response

  -- One turn of the loop calls nothing, or a model that it may call.
  abbrev IsTurn : String → Attempts F → Progress F → Type 0
  IsTurn model_id st p =
      (((state_of p).attempted ≡ st.attempted) × ((state_of p).response ≡ none))
      ⊎ ((model : Model F) × IsCallable model_id model
          × ((state_of p).attempted ≡ st.attempted ++ model_id ∷ [])
          × IsConcluded model p)

  conclude-IsConcluded :
      (model : Model F) (st : Attempts F) (result : Answer × Client)
      → st.response ≡ none
      → ((r : Response)
          → result.0 ≡ responded r
          → (pos 200 ≤ℤ r.status_code) × (r.status_code <ℤ pos 300))
      → ((state_of (conclude model st result)).attempted ≡ st.attempted)
        × IsConcluded model (conclude model st result)
  conclude-IsConcluded model st (responded r, client) h ok =
      (refl, inr (refl, (ok r refl).0, (ok r refl).1))
  conclude-IsConcluded model st (gave_up e, client) h ok = elim (Bool-cases (retryable e)) [
    | inl again ↦ rw (again) (refl, h)
    | inr stopped ↦ rw (stopped) (refl, inl h)
  ]

  send_body-IsTurn :
      (model_id : String) (st : Attempts F) (model : Model F) (c : IsCallable model_id model)
      (body : String ⊎ List ℕ)
      → st.response ≡ none
      → IsTurn model_id st (send_body s c.provider model model_id st body)
  send_body-IsTurn model_id st model c (inl e) h = inl (refl, h)
  send_body-IsTurn model_id st model c (inr body) h =
      let at = s.moment (length st.attempted) in
      let result =
        call at.http st.client at.asked at.answered_at c.provider model.id body s.headers in
      let (more, end) =
        conclude-IsConcluded model (record st { attempted = st.attempted ++ model_id ∷ [] }) result
          h
          (λ r e.
            let (low, high, again) =
              call_success at.http st.client at.asked at.answered_at c.provider model.id body
                s.headers r 0 e in
            (low, high)) in
      inr (model, c, more, end)

  try_model-IsTurn :
      (model_id : String) (st : Attempts F) (found : Option (Model F))
      → lookup model_id s.catalog ≡ found
      → is_skipped (lookup model_id s.predictions) ≡ false
      → st.response ≡ none
      → IsTurn model_id st (try_model s model_id st found)
  try_model-IsTurn model_id st none e eligible h = inl (refl, h)
  try_model-IsTurn model_id st (some model) e eligible h =
      elim (Option-cases (lookup model.provider s.tenant.providers)) [
        | inl missing ↦ rw (missing) (inl (refl, h))
        | inr (provider, there) ↦ rw (there) (
            send_body-IsTurn model_id st model
              record {
                in_catalog = e;
                provider = provider;
                has_provider = there;
                is_eligible = λ p there. eligible-of_kept _ p eligible there;
              }
              (body_for_model s.json s.request model.upstream_model none) h)
      ]

  attempt-IsTurn :
      (model_id : String) (st : Attempts F)
      → st.response ≡ none
      → IsTurn model_id st (attempt s model_id st)
  unfolding attempt
  attempt-IsTurn model_id st h = elim (Bool-cases (is_skipped (lookup model_id s.predictions))) [
    | inl skipped ↦ rw (skipped) (inl (refl, h))
    | inr eligible ↦
        rw (eligible) (try_model-IsTurn model_id st (lookup model_id s.catalog) refl eligible h)
  ]

  -- The models called, each with its place among the models to try: a part of the list, in its order.
  pub data IsTried : List String → List String → Type 0 where
    done : {ids : List String} → IsTried [] ids
    passed :
        {tried ids : List String} (model_id : String)
        → IsTried tried ids
        → IsTried tried (model_id ∷ ids)
    called :
        {tried ids : List String} (model_id : String) (model : Model F)
        → IsCallable model_id model
        → IsTried tried ids
        → IsTried (model_id ∷ tried) (model_id ∷ ids)

  all_passed : (ids : List String) → IsTried [] ids
  all_passed [] = done
  all_passed (id ∷ ids) = passed id (all_passed ids)

  abbrev IsEnd : List String → Option (Model F × Response) → Type 0
  IsEnd added response =
      (response ≡ none)
      ⊎ ((before : List String) × (last : String) × (model : Model F) × (added
            ≡ before ++ last ∷ [])
          × IsCallable last model
          × IsAnswer model response)

  one_more :
      (model_id : String) (added : List String) (response : Option (Model F × Response))
      → IsEnd added response
      → IsEnd (model_id ∷ added) response
  one_more model_id added response (inl e) = inl e
  one_more model_id added response (inr (before, last, model, e, c, answer)) =
      inr (model_id ∷ before, last, model, ap (λ xs. model_id ∷ xs) e, c, answer)

  just_one :
      (model_id : String) (model : Model F) (response : Option (Model F × Response))
      → IsCallable model_id model
      → (response ≡ none) ⊎ IsAnswer model response
      → IsEnd (model_id ∷ []) response
  just_one model_id model response c (inl e) = inl e
  just_one model_id model response c (inr answer) = inr ([], model_id, model, refl, c, answer)

  -- What the loop does from a state without a response: the calls it adds, and the response, which is
  -- that of the last call.
  pub record IsRun (ids : List String) (st st' : Attempts F) : Type 0 where
    pub added : List String
    pub extends : st'.attempted ≡ st.attempted ++ added
    pub tried : IsTried added ids
    pub ends : IsEnd added st'.response

  abbrev idle :
      (ids : List String) (st st' : Attempts F)
      → st'.attempted ≡ st.attempted
      → st'.response ≡ none
      → IsRun ids st st'
  idle ids st st' e h = record {
    added = [];
    extends = e ∙ sym (append-nil st.attempted);
    tried = all_passed ids;
    ends = inl h;
  }

  -- A turn, and what follows it.
  resume-IsRun :
      (model_id : String) (ids : List String) (st : Attempts F) (p : Progress F)
      → IsTurn model_id st p
      → ((st' : Attempts F) → st'.response ≡ none → IsRun ids st' (attempt_all s ids st'))
      → IsRun
          (model_id ∷ ids)
          st
          (elim p [ continue st' ↦ attempt_all s ids st' | break st' ↦ st' ])
  resume-IsRun model_id ids st (continue st') (inl (same, none_yet)) later =
      let run = later st' none_yet in
      record {
        added = run.added;
        extends = run.extends ∙ ap (λ xs. xs ++ run.added) same;
        tried = passed model_id run.tried;
        ends = run.ends;
      }
  resume-IsRun model_id ids st (break st') (inl (same, none_yet)) later =
      idle (model_id ∷ ids) st st' same none_yet
  resume-IsRun model_id ids st (continue st') (inr (model, c, more, none_yet)) later =
      let run = later st' none_yet in
      record {
        added = model_id ∷ run.added;
        extends =
            run.extends
            ∙ ap (λ xs. xs ++ run.added) more
            ∙ append_assoc st.attempted (model_id ∷ []) run.added;
        tried = called model_id model c run.tried;
        ends = one_more model_id run.added (attempt_all s ids st').response run.ends;
      }
  resume-IsRun model_id ids st (break st') (inr (model, c, more, end)) later = record {
    added = model_id ∷ [];
    extends = more;
    tried = called model_id model c (all_passed ids);
    ends = just_one model_id model st'.response c end;
  }

  -- From a state without a response the loop adds calls of models in the order in which they are to
  -- be tried, each entry of the list at most once and only if it may be called; the response, if any, is a
  -- success of the last model called.
  pub attempt_all-IsRun :
      (ids : List String) (st : Attempts F)
      → st.response ≡ none
      → IsRun ids st (attempt_all s ids st)
  unfolding attempt_all
  attempt_all-IsRun [] st h = idle [] st st refl h
  attempt_all-IsRun (model_id ∷ ids) st h =
      resume-IsRun model_id ids st (attempt s model_id st) (attempt-IsTurn model_id st h)
        (λ st' none_yet. attempt_all-IsRun ids st' none_yet)
