-- ===== src/Domain/Validate/Accepts.antt =====
-- Which policies `Validate` accepts.
use outcome_router.Base.{
  String, ◌≡◌, refl, ◌↔◌, inl, inr, true, false, none, List, [], ◌∷◌, ◌++◌, Map, arith, has_key, In,
  IsFresh, AreDistinct,
}
use outcome_router.Double.{Double, ltf, lef, outside, zero_float, one_float}
use outcome_router.Domain.{Model, Policy}
use outcome_router.Domain.Validate.{
  is_blank, is_supported, check_models, check_percents, percents, validate,
}

module _ {F : Type 0} ⦃d : Double F⦄ where
  -- Every id is in the catalog.
  abbrev pub AreKnown : Map (Model F) → List String → Type 0
  AreKnown catalog [] = Unit
  AreKnown catalog (id ∷ ids) = (has_key id catalog ≡ true) × AreKnown catalog ids

  check_models_iff :
      (catalog : Map (Model F)) (seen ids : List String)
      → (check_models catalog seen ids ≡ none) ↔ (AreKnown catalog ids × IsFresh seen ids)
  unfolding check_models
  check_models_iff catalog seen [] = (λ h. (tt, tt), λ h. refl)
  check_models_iff catalog seen (id ∷ ids) =
      ground (arith, check_models_iff catalog (id ∷ seen) ids)

  abbrev IsPercent : F → Type 0
  IsPercent value = outside value zero_float (d.decimal 100 0) ≡ false

  abbrev ArePercents : Map F → Type 0
  ArePercents [] = Unit
  ArePercents ((name, value) ∷ entries) = IsPercent value × ArePercents entries

  check_percents_iff : (entries : Map F) → (check_percents entries ≡ none) ↔ ArePercents entries
  unfolding check_percents
  check_percents_iff [] = (λ h. tt, λ h. refl)
  check_percents_iff ((name, value) ∷ entries) = ground (arith, check_percents_iff entries)

  ArePercents-In :
      (entries : Map F) (x : String × F) → ArePercents entries → In x entries → IsPercent x.1
  ArePercents-In [] x h i = absurd i
  ArePercents-In ((name, value) ∷ entries) x (p, ps) (inl e) = rw (← e) p
  ArePercents-In ((name, value) ∷ entries) x (p, ps) (inr i) = ArePercents-In entries x ps i

  ArePercents-of_In :
      (entries : Map F) → ((x : String × F) → In x entries → IsPercent x.1) → ArePercents entries
  ArePercents-of_In [] h = tt
  ArePercents-of_In ((name, value) ∷ entries) h =
      (h (name, value) (inl refl), ArePercents-of_In entries (λ x i. h x (inr i)))

  -- An order of visiting has the entries of the map, and no others.
  pub record IsOrderOf (visit : Map F → Map F) : Type 0 where
    pub keeps : (m : Map F) (x : String × F) → In x m → In x (visit m)
    pub adds_nothing : (m : Map F) (x : String × F) → In x (visit m) → In x m

  visited-ArePercents :
      (visit : Map F → Map F) (p : Policy F)
      → IsOrderOf visit
      → (check_percents (visit (percents p)) ≡ none) ↔ (
          IsPercent p.control_percent
          × IsPercent p.canary_percent
          × IsPercent p.exploration_percent)
  visited-ArePercents visit p order =
      let entries = percents p in
      (
        λ h.
            let all = (check_percents_iff (visit entries)).0 h in
            let at = λ (x : String × F) (i : In x entries).
              ArePercents-In (visit entries) x all (order.keeps entries x i) in
            (
              at ("control_percent", p.control_percent) (inl refl),
              at ("canary_percent", p.canary_percent) (inr (inl refl)),
              at ("exploration_percent", p.exploration_percent) (inr (inr (inl refl))),
            ),
        λ (c, k, x). (check_percents_iff (visit entries)).1 (
            ArePercents-of_In (visit entries)
              (λ y i. ArePercents-In entries y (c, (k, (x, tt))) (order.adds_nothing entries y i))),
      )

  -- What a valid policy satisfies.
  pub record IsAccepted (p : Policy F) (catalog : Map (Model F)) : Type 0 where
    pub has_id : is_blank p.id ≡ false
    pub has_tenant : is_blank p.tenant_id ≡ false
    pub has_version : is_blank p.version ≡ false
    pub supported : is_supported p.mode ≡ true
    pub incumbent_known : has_key p.incumbent_model catalog ≡ true
    pub models_known : AreKnown catalog (p.candidate_models ++ p.fallback_models)
    pub models_distinct : AreDistinct (p.candidate_models ++ p.fallback_models)
    pub tolerance : outside p.quality_tolerance zero_float one_float ≡ false
    pub control : outside p.control_percent zero_float (d.decimal 100 0) ≡ false
    pub canary : outside p.canary_percent zero_float (d.decimal 100 0) ≡ false
    pub exploration : outside p.exploration_percent zero_float (d.decimal 100 0) ≡ false
    pub exploration_cap : ltf (d.decimal 3 0) p.exploration_percent ≡ false
    pub confidence : lef p.confidence_z zero_float ≡ false

  -- In whatever order the percentages are visited, `Validate` returns no error exactly for the
  -- policies with a name, a tenant and a version, a known mode, an incumbent and distinct models in
  -- the catalog, percentages and a tolerance in range, at most 3% exploration and a positive
  -- confidence factor.
  pub validate_iff :
      (visit : Map F → Map F) (p : Policy F) (catalog : Map (Model F))
      → IsOrderOf visit
      → (validate visit p catalog ≡ none) ↔ IsAccepted p catalog
  unfolding validate
  validate_iff visit p catalog order = (
    λ h. ground (
      arith,
      check_models_iff catalog [] (p.candidate_models ++ p.fallback_models),
      visited-ArePercents visit p order,
    ),
    λ h. ground (
      arith,
      check_models_iff catalog [] (p.candidate_models ++ p.fallback_models),
      visited-ArePercents visit p order,
    ),
  )
