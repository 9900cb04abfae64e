-- ===== src/Routing/Parse/Accepts.antt =====
-- Which bodies `ParseRequest` accepts, and what every accepted request has.
use mathlib.Core.Sum.{inl-ne-inr}
use outcome_router.Base.{
  subst, ℕ, String, ◌≡◌, ◌≢◌, refl, ◌↔◌, inl, inr, false, Option, none, some, List, [], ◌∷◌, Map,
  arith, lookup, remove, lookup-remove, is_empty, ltb, length, ◌==◌, ◌≤◌, Bool-cases,
}
use outcome_router.Base.Int.{pos, ◌<ℤ◌}
use outcome_router.Double.{Double}
use outcome_router.Domain.{
  RiskClass, any_risk, low, normal, high, regulated, other_risk, RoutingMetadata,
}
use outcome_router.Routing.Feasible.{Request}
use outcome_router.Routing.Parse.{
  or_else, or_any, Decoder, max_request_bytes, no_metadata, request_of, parse_request,
  expected_output, features_of, with_object, with_raw_messages, with_messages, with_metadata,
  read_metadata,
}

module _ {F : Type 0} ⦃d : Double F⦄ (json : Decoder F) where
  abbrev IsMetadata : Option String → RoutingMetadata F → Type 0
  IsMetadata none metadata = no_metadata json ≡ metadata
  IsMetadata (some raw) metadata = json.metadata raw ≡ some metadata

  -- A body that is not empty and not too long, an object with a list of at least one message, and
  -- metadata that decode if there are any.
  pub record IsAccepted (body : List ℕ) (request : Request F) : Type 0 where
    pub is_there : is_empty body ≡ false
    pub fits : length body ≤ max_request_bytes
    pub raw : Map String
    pub is_object : json.object body ≡ some raw
    pub value : String
    pub has_messages : lookup "messages" raw ≡ some value
    pub first : Map String
    pub rest : List (Map String)
    pub are_messages : json.objects value ≡ some (first ∷ rest)
    pub metadata : RoutingMetadata F
    pub is_metadata : IsMetadata (lookup "routing" raw) metadata
    pub is_request : request_of json raw (first ∷ rest) metadata ≡ request

  read_metadata-IsMetadata :
      (raw : Option String) (metadata : RoutingMetadata F)
      → (read_metadata json raw ≡ some metadata) ↔ IsMetadata raw metadata
  read_metadata-IsMetadata none metadata = ground arith
  read_metadata-IsMetadata (some raw) metadata = ground arith

  long_enough : (n : ℕ) → ltb max_request_bytes n ≡ false → n ≤ max_request_bytes
  long_enough n h = ground arith

  with_metadata-inr :
      (raw : Map String) (messages : List (Map String)) (m : Option (RoutingMetadata F))
      (request : Request F)
      → read_metadata json (lookup "routing" raw) ≡ m
      → with_metadata json raw messages m ≡ inr request
      → (metadata : RoutingMetadata F) × IsMetadata (lookup "routing" raw) metadata
        × (request_of json raw messages metadata ≡ request)
  with_metadata-inr raw messages none request e h = cc
  with_metadata-inr raw messages (some metadata) request e h =
      (metadata, (read_metadata-IsMetadata (lookup "routing" raw) metadata).0 e, cc)

  -- The part of the acceptance after the body is an object.
  abbrev IsRead : Map String → Request F → Type 0
  IsRead raw request =
      (value : String) × (lookup "messages" raw ≡ some value)
      × (first : Map String) × (rest : List (Map String)) × (json.objects value
          ≡ some (first ∷ rest))
      × (metadata : RoutingMetadata F) × IsMetadata (lookup "routing" raw) metadata
      × (request_of json raw (first ∷ rest) metadata ≡ request)

  with_messages-inr :
      (raw : Map String) (value : String) (messages : Option (List (Map String)))
      (request : Request F)
      → lookup "messages" raw ≡ some value
      → json.objects value ≡ messages
      → with_messages json raw messages ≡ inr request
      → IsRead raw request
  with_messages-inr raw value none request there e h = cc
  with_messages-inr raw value (some []) request there e h = cc
  with_messages-inr raw value (some (first ∷ rest)) request there e h =
      let (metadata, is, made) = with_metadata-inr raw (first ∷ rest) _ request refl h in
      (value, there, first, rest, e, metadata, is, made)

  with_raw_messages-inr :
      (raw : Map String) (value : Option String) (request : Request F)
      → lookup "messages" raw ≡ value
      → with_raw_messages json raw value ≡ inr request
      → IsRead raw request
  with_raw_messages-inr raw none request e h = cc
  with_raw_messages-inr raw (some value) request e h =
      with_messages-inr raw value (json.objects value) request e refl h

  with_object-inr :
      (body : List ℕ) (object : Option (Map String)) (request : Request F)
      → is_empty body ≡ false
      → ltb max_request_bytes (length body) ≡ false
      → json.object body ≡ object
      → with_object json object ≡ inr request
      → IsAccepted body request
  with_object-inr body none request there fits e h = cc
  with_object-inr body (some raw) request there fits e h =
      let (value, has, first, rest, are, metadata, is, made) =
        with_raw_messages-inr raw (lookup "messages" raw) request refl h in
      record {
        is_there = there;
        fits = long_enough (length body) fits;
        raw = raw;
        is_object = e;
        value = value;
        has_messages = has;
        first = first;
        rest = rest;
        are_messages = are;
        metadata = metadata;
        is_metadata = is;
        is_request = made;
      }

  parse_request-IsAccepted :
      (body : List ℕ) (request : Request F)
      → parse_request json body ≡ inr request
      → IsAccepted body request
  unfolding parse_request
  parse_request-IsAccepted body request h = elim (Bool-cases (is_empty body)) [
    | inl nothing ↦ absurd (inl-ne-inr (rw (nothing) at h))
    | inr there ↦ elim (Bool-cases (ltb max_request_bytes (length body))) [
      | inl long ↦ absurd (inl-ne-inr (rw (there, long) at h))
      | inr fits ↦
          with_object-inr body (json.object body) request there fits refl (rw (there, fits) at h)
    ]
  ]

  expected_output-positive : (raw : Map String) → pos 0 <ℤ expected_output json raw
  unfolding expected_output
  expected_output-positive raw = ground arith

  abbrev IsComplete : Request F → Type 0
  IsComplete request =
      (pos 0 <ℤ request.features.message_count)
      × (pos 0 <ℤ request.features.expected_output_tokens)
      × ((request.metadata.workflow == "") ≡ false)
      × ((request.metadata.step == "") ≡ false)
      × (request.metadata.risk_class ≢ any_risk)
      × (lookup "routing" request.raw ≡ none)

  or_else-there :
      (value default : String) → (default == "") ≡ false → (or_else value default == "") ≡ false
  or_else-there value default h = ground arith

  or_any-set : (risk : RiskClass) → or_any risk ≢ any_risk
  or_any-set any_risk h = cc
  or_any-set low h = cc
  or_any-set normal h = cc
  or_any-set high h = cc
  or_any-set regulated h = cc
  or_any-set (other_risk name) h = cc

  request_of-IsComplete :
      (raw : Map String) (first : Map String) (rest : List (Map String))
      (metadata : RoutingMetadata F)
      → IsComplete (request_of json raw (first ∷ rest) metadata)
  unfolding features_of
  request_of-IsComplete raw first rest metadata = (
    omega arith,
    expected_output-positive (remove "routing" raw),
    or_else-there metadata.workflow "default" refl,
    or_else-there metadata.step "response" refl,
    or_any-set metadata.risk_class,
    rw (lookup-remove) refl,
  )

  -- Every request that `ParseRequest` returns has at least one message, a positive number of expected
  -- output tokens, a workflow, a step and a risk class, and no routing metadata among the fields that
  -- are sent on.
  pub parse_request_complete :
      (body : List ℕ) (request : Request F)
      → parse_request json body ≡ inr request
      → (pos 0 <ℤ request.features.message_count)
        × (pos 0 <ℤ request.features.expected_output_tokens)
        × ((request.metadata.workflow == "") ≡ false)
        × ((request.metadata.step == "") ≡ false)
        × (request.metadata.risk_class ≢ any_risk)
        × (lookup "routing" request.raw ≡ none)
  parse_request_complete body request h =
      let k = parse_request-IsAccepted body request h in
      subst IsComplete k.is_request (request_of-IsComplete k.raw k.first k.rest k.metadata)
