-- ===== src/Routing/Feasible.antt =====
-- internal/routing/engine.go: the hard constraints on a model. The empty text means feasible.
pub mod Exact
pub mod Overrides
pub mod Tokens
use outcome_router.Base.{
  ℕ, String, Bool, true, false, not, ◌&&◌, ◌||◌, Option, none, some, List, [], ◌∷◌, map, Map,
  if◌then◌else◌, ◌==◌, codes, same_codes, is_empty,
}
use outcome_router.Base.Int.{ℤ, pos, add_int, ltb_ℤ, eq_ℤ}
use outcome_router.Double.{Double, zero_float, ltf}
use outcome_router.Domain.{
  Time, Model, Policy, Privacy, any_privacy, standard, zdr, local, other_privacy, is_unset,
  RoutingMetadata, Features,
}

-- `json.RawMessage` is a text. `requested_model` and `stream` are read from the body.
pub record Request (F : Type 0) : Type 0 where
  pub raw : Map String
  pub metadata : RoutingMetadata F
  pub features : Features F
  pub requested_model : String
  pub stream : Bool

-- `health` is the interface value, `none` for nil, as it answers during one call of `Route`.
pub record Engine (F : Type 0) : Type 0 where
  pub catalog : Map (Model F)
  pub health : Option (String → Bool)
  pub now : Option Time

-- `strings.EqualFold`: `fold` takes a code point to the least of those that Unicode's simple case
-- folding identifies with it.
unfoldable pub equal_fold : (ℕ → ℕ) → String → String → Bool
equal_fold fold s t = same_codes (map fold (codes s)) (map fold (codes t))

unfoldable pub contains_fold : (ℕ → ℕ) → List String → String → Bool
contains_fold fold [] target = false
contains_fold fold (value ∷ values) target =
    if equal_fold fold value target then true else contains_fold fold values target

abbrev is_local : Privacy → Bool
is_local local = true
is_local _ = false

unfoldable pub privacy_satisfies : Privacy → Privacy → Bool
privacy_satisfies actual any_privacy = true
privacy_satisfies actual standard = true
privacy_satisfies zdr zdr = true
privacy_satisfies local zdr = true
privacy_satisfies any_privacy zdr = false
privacy_satisfies standard zdr = false
privacy_satisfies (other_privacy s) zdr = false
privacy_satisfies actual local = is_local actual
privacy_satisfies actual (other_privacy s) = is_local actual

-- `e.Health == nil || e.Health.Available(provider)`
abbrev pub available : Option (String → Bool) → String → Bool
available none provider = true
available (some health) provider = health provider

-- A row of early returns: the reason of the first test that passes, and `""` at the end.
unfoldable pub first_reason : List (Bool × String) → String
first_reason [] = ""
first_reason ((refused, reason) ∷ checks) = if refused then reason else first_reason checks

module _ {F : Type 0} ⦃d : Double F⦄ (fold : ℕ → ℕ) where
  -- The requirement of the request, or else the policy's.
  abbrev pub effective_privacy : Policy F → Request F → Privacy
  effective_privacy policy request =
      let asked = request.metadata.required_privacy in
      if is_unset asked then policy.constraints.required_privacy else asked

  abbrev pub effective_deadline : Policy F → Request F → ℤ
  effective_deadline policy request =
      let asked = request.metadata.deadline_ms in
      if eq_ℤ asked (pos 0) then policy.constraints.max_p95_latency_ms else asked

  abbrev pub effective_max_cost : Policy F → Request F → F
  effective_max_cost policy request =
      let asked = request.metadata.max_cost_usd in
      if d.eq asked zero_float then policy.constraints.max_estimated_cost_usd else asked

  -- The guards of `infeasibleReason` in their order, each with the reason that it returns.
  unfoldable pub constraint_checks :
      Engine F → Policy F → Model F → Request F → F → List (Bool × String)
  constraint_checks e policy model request cost =
      let features = request.features in
      let needed = add_int features.input_tokens features.expected_output_tokens in
      let region = request.metadata.required_region in
      let allowed = policy.constraints.allowed_regions in
      let deadline = effective_deadline policy request in
      let max_cost = effective_max_cost policy request in
      (not model.enabled, "model_disabled")
      ∷ (not (available e.health model.provider), "provider_circuit_open")
      ∷ (ltb_ℤ (pos 0) model.context_window && ltb_ℤ model.context_window needed, "context_window")
      ∷ (ltb_ℤ (pos 0) features.tool_count && not model.supports_tools, "tools_unsupported")
      ∷ (
        features.has_structured_output && not model.supports_structured,
        "structured_output_unsupported",
      )
      ∷ (features.has_vision && not model.supports_vision, "vision_unsupported")
      ∷ (not (region == "") && not (equal_fold fold model.region region), "region")
      ∷ (not (is_empty allowed) && not (contains_fold fold allowed model.region), "policy_region")
      ∷ (not (privacy_satisfies model.privacy (effective_privacy policy request)), "privacy")
      ∷ (ltb_ℤ (pos 0) deadline && ltb_ℤ deadline model.p95_latency_ms, "latency")
      ∷ (ltf zero_float max_cost && ltf max_cost cost, "cost")
      ∷ []

  unfoldable pub infeasible_reason : Engine F → Policy F → Model F → Request F → F → String
  unfolding first_reason
  infeasible_reason e policy model request cost =
      first_reason (constraint_checks e policy model request cost)
