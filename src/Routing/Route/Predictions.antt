-- ===== src/Routing/Route/Predictions.antt =====
-- The map of predictions that `Route` builds.
use mathlib.Core.Option.{some-injective}
use mathlib.Core.Bool.{false≢true}
use outcome_router.Base.{
  String, ◌≡◌, sym, ◌∙◌, ap, inl, inr, true, some, List, [], ◌∷◌, Map, Bool-cases, Option-cases,
  lookup, insert, lookup-insert, lookup-insert_self, eq_iff, ◌==◌, In,
}
use outcome_router.Double.{Double}
use outcome_router.Domain.{Model, Policy, Prediction}
use outcome_router.Routing.Feasible.{Request, Engine}
use outcome_router.Routing.Predict.{predict}
use outcome_router.Routing.Select.{prediction_of}
use outcome_router.Routing.Route.{
  Ambient, Predicted, predict_one, predict_models, policy_models, predicted_decision,
}

module _ {F : Type 0} ⦃d : Double F⦄ (a : Ambient F) (e : Engine F) (policy : Policy F)
    (request : Request F) where
  -- Every prediction is that of the model which the catalog holds under its key.
  pub record IsSourced (predictions : Map (Prediction F)) : Type 0 where
    pub at_key :
        (k : String) (p : Prediction F)
        → lookup k predictions ≡ some p
        → (model : Model F) × (lookup k e.catalog ≡ some model)
          × (p ≡ predict a.fold a.visit e policy model request)

  insert-IsSourced :
      (k : String) (model : Model F) (predictions : Map (Prediction F))
      → lookup k e.catalog ≡ some model
      → IsSourced predictions
      → IsSourced (insert k (predict a.fold a.visit e policy model request) predictions)
  insert-IsSourced k model predictions found s = record {
    at_key = λ j p h. elim (Bool-cases (k == j)) [
      | inl same ↦
          let k-j : k ≡ j = (eq_iff k j).0 same in
          (model, rw (← k-j) found, sym (some-injective _ _ (rw (lookup-insert, same) at h)))
      | inr other ↦ s.at_key j p (rw (lookup-insert, other) at h)
    ];
  }

  predict_one-IsSourced :
      (k : String) (acc : Predicted F)
      → IsSourced acc.0
      → IsSourced (predict_one a e policy request k acc).0
  predict_one-IsSourced k acc s = elim (Option-cases (lookup k e.catalog)) [
    | inl missing ↦ rw (missing, predict_one) s
    | inr (model, found) ↦ rw (found, predict_one) (insert-IsSourced k model acc.0 found s)
  ]

  predict_models-IsSourced :
      (ids : List String) (acc : Predicted F)
      → IsSourced acc.0
      → IsSourced (predict_models a e policy request ids acc).0
  unfolding predict_models
  predict_models-IsSourced [] acc s = s
  predict_models-IsSourced (k ∷ ids) acc s =
      predict_models-IsSourced ids (predict_one a e policy request k acc)
        (predict_one-IsSourced k acc s)

  nothing-IsSourced : IsSourced []
  unfolding lookup
  nothing-IsSourced = record { at_key = λ k p h. cc }

  pub predictions-IsSourced :
      (tenant_id : String) → IsSourced (predicted_decision a e tenant_id policy request).predictions
  unfolding predicted_decision
  predictions-IsSourced tenant_id =
      predict_models-IsSourced (policy_models policy) ([], []) nothing-IsSourced

  -- An eligible entry comes from the catalog, not from a missing key.
  pub eligible-sourced :
      (predictions : Map (Prediction F)) (k : String)
      → IsSourced predictions
      → (prediction_of predictions k).eligible ≡ true
      → (model : Model F) × (lookup k e.catalog ≡ some model)
        × (prediction_of predictions k ≡ predict a.fold a.visit e policy model request)
  eligible-sourced predictions k s h = elim (Option-cases (lookup k predictions)) [
    | inl missing ↦ absurd (false≢true (rw missing at h))
    | inr (p, found) ↦ rw found (s.at_key k p found)
  ]

  -- Every listed model that the catalog holds has its prediction in the map.
  abbrev Covers : Map (Prediction F) → String → Model F → Type 0
  Covers predictions k model =
      lookup k predictions ≡ some (predict a.fold a.visit e policy model request)

  predict_one-keeps :
      (k j : String) (model : Model F) (acc : Predicted F)
      → lookup k e.catalog ≡ some model
      → Covers acc.0 k model
      → Covers (predict_one a e policy request j acc).0 k model
  predict_one-keeps k j model acc found c = elim (Option-cases (lookup j e.catalog)) [
    | inl missing ↦ rw (missing, predict_one) c
    | inr (other, there) ↦ elim (Bool-cases (j == k)) [
      | inl same ↦
          let j-k : j ≡ k = (eq_iff j k).0 same in
          let one : other ≡ model =
            some-injective _ _ (sym there ∙ ap (λ i. lookup i e.catalog) j-k ∙ found) in
          rw (there, predict_one, lookup-insert, same, one)
      | inr differ ↦ rw (there, predict_one, lookup-insert, differ) c
    ]
  ]

  predict_one-Covers :
      (k : String) (model : Model F) (acc : Predicted F)
      → lookup k e.catalog ≡ some model
      → Covers (predict_one a e policy request k acc).0 k model
  predict_one-Covers k model acc found = rw (found, predict_one, lookup-insert_self)

  predict_models-keeps :
      (ids : List String) (k : String) (model : Model F) (acc : Predicted F)
      → lookup k e.catalog ≡ some model
      → Covers acc.0 k model
      → Covers (predict_models a e policy request ids acc).0 k model
  unfolding predict_models
  predict_models-keeps [] k model acc found c = c
  predict_models-keeps (j ∷ ids) k model acc found c =
      predict_models-keeps ids k model (predict_one a e policy request j acc) found
        (predict_one-keeps k j model acc found c)

  predict_models-Covers :
      (ids : List String) (k : String) (model : Model F) (acc : Predicted F)
      → lookup k e.catalog ≡ some model
      → In k ids
      → Covers (predict_models a e policy request ids acc).0 k model
  unfolding predict_models
  predict_models-Covers [] k model acc found i = absurd i
  predict_models-Covers (j ∷ ids) k model acc found (inl same) =
      predict_models-keeps ids k model (predict_one a e policy request j acc) found
        (rw same (predict_one-Covers k model acc found))
  predict_models-Covers (j ∷ ids) k model acc found (inr i) =
      predict_models-Covers ids k model (predict_one a e policy request j acc) found i

  pub predicted_decision-covers :
      (tenant_id k : String) (model : Model F)
      → lookup k e.catalog ≡ some model
      → In k (policy_models policy)
      → prediction_of (predicted_decision a e tenant_id policy request).predictions k
        ≡ predict a.fold a.visit e policy model request
  unfolding predicted_decision
  predicted_decision-covers tenant_id k model found i =
      rw (predict_models-Covers (policy_models policy) k model ([], []) found i)
