-- ===== src/Server/Shadows/Budget.antt =====
-- The shadow budget: what a launch charges and to which key.
use outcome_router.Base.{
  subst, String, ◌≡◌, refl, sym, ap, ◌∙◌, ◌⊎◌, inl, inr, true, false, ◌||◌, List, [], ◌∷◌, ◌++◌,
  Map, arith, lookup, insert, get_or, lookup-insert, ◌==◌, if◌then◌else◌, Bool-cases, is_empty,
  eq_iff,
}
use outcome_router.Config.{Tenant}
use outcome_router.Double.{Double, ltf, ◌⊕◌}
use outcome_router.Domain.{Model, Policy, RouteDecision}
use outcome_router.Routing.Select.{prediction_of}
use outcome_router.Server.Shadows.{
  shadow_key, ShadowJob, is_high_risk, spent, reserve_shadow_budget, add_job, no_model, launch_all,
  launch_shadows,
}

module _ {F : Type 0} ⦃d : Double F⦄ where
  -- A sum with further costs, in their order.
  abbrev pub add_all : F → List F → F
  add_all total [] = total
  add_all total (cost ∷ costs) = add_all (total ⊕ cost) costs

module _ {F : Type 0} ⦃d : Double F⦄ (catalog : Map (Model F)) (tenant : Tenant) (policy : Policy F)
    (parent : RouteDecision F) (day : String → String) where
  -- The key and the estimated cost of a model's shadow request.
  abbrev pub key_of : String → String
  key_of model_id = shadow_key tenant.id policy.id (day model_id)

  abbrev pub cost_for : String → F
  cost_for model_id = (prediction_of parent.predictions model_id).estimated_cost_usd

  -- The costs that go to a key.
  abbrev pub costs_at : String → List String → List F
  costs_at key [] = []
  costs_at key (model_id ∷ ids) =
      let costs = costs_at key ids in
      if key_of model_id == key then cost_for model_id ∷ costs else costs

  -- The jobs of models that are charged: those with a provider of the tenant.
  abbrev pub jobs_of : List String → List (ShadowJob F)
  jobs_of [] = []
  jobs_of (model_id ∷ ids) =
      let jobs = jobs_of ids in
      let model = get_or (lookup model_id catalog) no_model in
      add_job model (prediction_of parent.predictions model_id) jobs
        (lookup model.provider tenant.providers)

  -- `IsCharged spend ids charged`: of the models in turn, those are charged that did not answer and whose
  -- cost, with what has been spent and charged at their key, is not over the budget.
  pub data IsCharged (spend : Map F) : List String → List String → List String → Type 0 where
    done : (before : List String) → IsCharged spend before [] []
    answered :
        (before ids charged : List String) (model_id : String)
        → (model_id == parent.final_model) ≡ true
        → IsCharged spend before ids charged
        → IsCharged spend before (model_id ∷ ids) charged
    over :
        (before ids charged : List String) (model_id : String)
        → (model_id == parent.final_model) ≡ false
        → ltf policy.shadow_budget_usd_per_day (
            add_all (spent spend (key_of model_id)) (costs_at (key_of model_id) before)
            ⊕ cost_for model_id)
          ≡ true
        → IsCharged spend before ids charged
        → IsCharged spend before (model_id ∷ ids) charged
    charge :
        (before ids charged : List String) (model_id : String)
        → (model_id == parent.final_model) ≡ false
        → ltf policy.shadow_budget_usd_per_day (
            add_all (spent spend (key_of model_id)) (costs_at (key_of model_id) before)
            ⊕ cost_for model_id)
          ≡ false
        → IsCharged spend (before ++ model_id ∷ []) ids charged
        → IsCharged spend before (model_id ∷ ids) (model_id ∷ charged)

  -- What a launch from `now` on charges, when `before` has been charged since `spend`.
  abbrev IsLaunched :
      Map F → Map F → List String → List String → List (ShadowJob F) × Map F → List String → Type 0
  IsLaunched spend now before ids (jobs, after) charged =
      IsCharged spend before ids charged
      × (jobs ≡ jobs_of charged)
      × ((key : String) → spent after key ≡ add_all (spent now key) (costs_at key charged))
      × ((key : String)
          → (spent after key ≡ spent now key)
            ⊎ (ltf policy.shadow_budget_usd_per_day (spent after key) ≡ false))

  -- The sums in `now` are those of `spend` with what has been charged.
  abbrev AreCharged : Map F → Map F → List String → Type 0
  AreCharged spend now before =
      (key : String) → spent now key ≡ add_all (spent spend key) (costs_at key before)

  spent-insert :
      (spend : Map F) (key other : String) (total : F)
      → spent (insert key total spend) other ≡ (if key == other then total else spent spend other)
  spent-insert spend key other total = rw (lookup-insert) (ground arith)

  add_all-snoc :
      (total : F) (key model_id : String) (before : List String)
      → add_all total (costs_at key (before ++ model_id ∷ [])) ≡ (
          if key_of model_id == key
          then add_all total (costs_at key before) ⊕ cost_for model_id
          else add_all total (costs_at key before))
  add_all-snoc total key model_id [] = elim (Bool-cases (key_of model_id == key)) [
    | inl here ↦ rw here refl
    | inr other ↦ rw other refl
  ]
  add_all-snoc total key model_id (b ∷ before) = elim (Bool-cases (key_of b == key)) [
    | inl here ↦ rw here (add_all-snoc (total ⊕ cost_for b) key model_id before)
    | inr other ↦ rw other (add_all-snoc total key model_id before)
  ]

  -- The map when a model is charged.
  abbrev charge_to : Map F → String → Map F
  charge_to now model_id =
      insert (key_of model_id) (spent now (key_of model_id) ⊕ cost_for model_id) now

  spent-charge_to :
      (now : Map F) (model_id key : String)
      → spent (charge_to now model_id) key
        ≡ (if key_of model_id == key then spent now key ⊕ cost_for model_id else spent now key)
  spent-charge_to now model_id key =
      spent-insert now (key_of model_id) key _ ∙ elim (Bool-cases (key_of model_id == key)) [
        | inl here ↦
            rw here
              (ap (λ k. spent now k ⊕ cost_for model_id) ((eq_iff (key_of model_id) key).0 here))
        | inr other ↦ rw other refl
      ]

  charged-AreCharged :
      (spend now : Map F) (before : List String) (model_id : String)
      → AreCharged spend now before
      → AreCharged spend (charge_to now model_id) (before ++ model_id ∷ [])
  charged-AreCharged spend now before model_id sums key =
      spent-charge_to now model_id key ∙ elim (Bool-cases (key_of model_id == key)) [
        | inl here ↦ rw (add_all-snoc, here) (ap (λ total. total ⊕ cost_for model_id) (sums key))
        | inr other ↦ rw (add_all-snoc, other) (sums key)
      ]

  charge-sum :
      (now : Map F) (charged : List String) (model_id key : String)
      → add_all (spent (charge_to now model_id) key) (costs_at key charged)
        ≡ add_all (spent now key) (costs_at key (model_id ∷ charged))
  charge-sum now charged model_id key =
      ap (λ total. add_all total (costs_at key charged)) (spent-charge_to now model_id key)
      ∙ elim (Bool-cases (key_of model_id == key)) [
        | inl here ↦ rw here refl
        | inr other ↦ rw other refl
      ]

  charge-within :
      (now : Map F) (after : F) (model_id key : String)
      → ltf policy.shadow_budget_usd_per_day (spent now (key_of model_id) ⊕ cost_for model_id)
        ≡ false
      → (after ≡ spent (charge_to now model_id) key)
        ⊎ (ltf policy.shadow_budget_usd_per_day after ≡ false)
      → (after ≡ spent now key) ⊎ (ltf policy.shadow_budget_usd_per_day after ≡ false)
  charge-within now after model_id key fits (inr within) = inr within
  charge-within now after model_id key fits (inl same) =
      elim (Bool-cases (key_of model_id == key)) [
        | inl here ↦ inr (
            ap (ltf policy.shadow_budget_usd_per_day)
              (same ∙ spent-insert now (key_of model_id) key _ ∙ rw here refl)
            ∙ fits)
        | inr other ↦ inl (same ∙ spent-charge_to now model_id key ∙ rw other refl)
      ]

  launch_all-IsLaunched :
      (spend now : Map F) (before ids : List String)
      → AreCharged spend now before
      → (charged : List String) × IsLaunched spend now before ids
          (launch_all catalog tenant policy parent day ids now)
          charged
  unfolding launch_all reserve_shadow_budget
  launch_all-IsLaunched spend now before [] sums =
      ([], (done before, refl, λ key. refl, λ key. inl refl))
  launch_all-IsLaunched spend now before (model_id ∷ ids) sums =
      let total = spent now (key_of model_id) ⊕ cost_for model_id in
      elim (Bool-cases (model_id == parent.final_model)) [
        | inl final ↦
            let (charged, (c, j, s, w)) = launch_all-IsLaunched spend now before ids sums in
            rw final (charged, (answered before ids charged model_id final c, j, s, w))
        | inr other ↦ elim (Bool-cases (ltf policy.shadow_budget_usd_per_day total)) [
          | inl refused ↦
              let (charged, (c, j, s, w)) = launch_all-IsLaunched spend now before ids sums in
              rw (other, refused)
                (
                  charged,
                  (
                    over before ids charged model_id other (rw (← sums (key_of model_id)) refused)
                        c,
                    j,
                    s,
                    w,
                  ),
                )
          | inr fits ↦
              let next = charge_to now model_id in
              let (charged, (c, j, s, w)) =
                launch_all-IsLaunched spend next (before ++ model_id ∷ []) ids
                  (charged-AreCharged spend now before model_id sums) in
              rw (other, fits)
                (
                  model_id ∷ charged,
                  (
                    charge before ids charged model_id other (rw (← sums (key_of model_id)) fits) c,
                    ap
                        (λ jobs.
                          add_job (get_or (lookup model_id catalog) no_model)
                            (prediction_of parent.predictions model_id) jobs
                            (lookup (get_or (lookup model_id catalog) no_model).provider
                              tenant.providers))
                        j,
                    λ key. s key ∙ charge-sum now charged model_id key,
                    λ key. charge-within now (spent _ key) model_id key fits (w key),
                  ),
                )
        ]
      ]

  -- An empty list needs no test.
  none_or_all :
      (spend : Map F) (ids : List String)
      → (if is_empty ids || false
          then ([], spend)
          else launch_all catalog tenant policy parent day ids spend)
        ≡ launch_all catalog tenant policy parent day ids spend
  unfolding launch_all
  none_or_all spend [] = refl
  none_or_all spend (id ∷ ids) = refl

  -- For a high or regulated risk class nothing is launched or spent. Else a launch charges, of the
  -- decision's shadow models in turn, those that did not answer and whose estimated cost, with what is
  -- spent at the key of the tenant, the policy and the day of their turn, is not over the policy's
  -- daily budget; it sends the charged ones with a provider of the tenant, adds to the sum of each key
  -- the costs that were charged to it, and nothing else, and no sum that it changes is over the budget.
  pub launch_shadows_lem :
      (spend : Map F)
      → let (jobs, after) = launch_shadows catalog tenant policy parent day spend in
        (is_high_risk parent.risk_class ≡ true → (jobs ≡ []) × (after ≡ spend))
        × (is_high_risk parent.risk_class ≡ false
            → (charged : List String) × IsCharged spend [] parent.shadow_models charged
              × (jobs ≡ jobs_of charged)
              × ((key : String)
                  → spent after key ≡ add_all (spent spend key) (costs_at key charged))
              × ((key : String)
                  → (spent after key ≡ spent spend key)
                    ⊎ (ltf policy.shadow_budget_usd_per_day (spent after key) ≡ false)))
  unfolding launch_shadows
  launch_shadows_lem spend = (
    λ risky. elim (Bool-cases (is_empty parent.shadow_models)) [
      | inl blank ↦ rw blank (refl, refl)
      | inr full ↦ rw (full, risky) (refl, refl)
    ],
    λ calm.
        let (charged, launched) =
          launch_all-IsLaunched spend spend [] parent.shadow_models (λ key. refl) in
        let (c, j, s, w) =
          subst (λ result. IsLaunched spend spend [] parent.shadow_models result charged)
            (sym (rw calm (none_or_all spend parent.shadow_models))) launched in
        (charged, c, j, s, w),
  )
