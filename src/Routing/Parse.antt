-- ===== src/Routing/Parse.antt =====
-- internal/routing/request.go: `ParseRequest`.
pub mod Accepts
pub mod Vision
use outcome_router.Base.{
  ℕ, ◌*◌, ◌/◌, ◌^◌, String, Bool, true, false, not, ◌||◌, Option, none, some, List, [], ◌∷◌, Map,
  lookup, remove, has_key, ◌⊎◌, inl, inr, if◌then◌else◌, ◌==◌, ltb, leb, nat_eq, codes, encode,
  length, is_empty, get_or,
}
use outcome_router.Base.Int.{ℤ, pos, add_int, leb_ℤ}
use outcome_router.Double.{Double, zero_float, one_float}
use outcome_router.Domain.{
  RiskClass, any_privacy, any_risk, low, normal, high, regulated, other_risk, RoutingMetadata,
  Features,
}
use outcome_router.Routing.Feasible.{Request}

-- What the code uses of encoding/json to read, `none` for an error, and `strings.ToLower`. A JSON null
-- is no error: it reads as the value that Go's variable has before.
pub record Decoder (F : Type 0) : Type 0 where
  pub object : List ℕ → Option (Map String)
  pub objects : String → Option (List (Map String))
  pub array : String → Option (List String)
  pub text : String → Option String
  pub boolean : String → Option Bool
  pub integer : String → Option ℤ
  pub metadata : String → Option (RoutingMetadata F)
  pub lower : String → String

pub data ParseError : Type 0 where
  empty_body body_too_large : ParseError
  not_decoded : ParseError
  messages_required messages_empty : ParseError
  metadata_not_decoded : ParseError

abbrev pub max_request_bytes : ℕ
max_request_bytes = 32 * 2 ^ 20

-- `len` of a raw value, in bytes, and the number of runes of a text.
abbrev pub byte_length : String → ℕ
byte_length raw = length (encode (codes raw))

abbrev pub quarter_of_runes : String → ℕ
quarter_of_runes value = let n = length (codes value) / 4 in if leb 1 n then n else 1

module _ {F : Type 0} ⦃d : Double F⦄ where
  abbrev pub risk_value : RiskClass → F
  risk_value low = zero_float
  risk_value high = d.decimal 75 2
  risk_value regulated = one_float
  risk_value _ = d.decimal 35 2

abbrev pub or_any : RiskClass → RiskClass
or_any any_risk = normal
or_any risk = risk

abbrev pub or_else : String → String → String
or_else value default = if value == "" then default else value

module _ {F : Type 0} (json : Decoder F) where
  -- A text that is read into a variable holding the empty text.
  abbrev pub text_of : Option String → String
  text_of none = ""
  text_of (some raw) = get_or (json.text raw) ""

  abbrev pub is_image : Map String → Bool
  is_image part =
      let kind = json.lower (text_of (lookup "type" part)) in
      kind == "image_url" || kind == "input_image"

  abbrev part_tokens : Map String → ℕ
  part_tokens part =
      let kind = json.lower (text_of (lookup "type" part)) in
      if kind == "text" || kind == "input_text"
      then quarter_of_runes (text_of (lookup "text" part))
      else if kind == "image_url" || kind == "input_image"
      then 85
      else byte_length (get_or (lookup "text" part) "") / 4

  unfoldable pub parts_tokens : List (Map String) → ℤ × Bool → ℤ × Bool
  parts_tokens [] (tokens, vision) = (tokens, vision)
  parts_tokens (part ∷ parts) (tokens, vision) =
      parts_tokens parts (add_int tokens (pos (part_tokens part)), vision || is_image part)

  abbrev list_tokens : String → Bool → Option (List (Map String)) → ℤ × Bool
  list_tokens raw vision none = (pos (byte_length raw / 4), vision)
  list_tokens raw vision (some parts) = parts_tokens parts (pos 0, vision)

  abbrev value_tokens : String → Bool → Option String → ℤ × Bool
  value_tokens raw vision (some text) = (pos (quarter_of_runes text), vision)
  value_tokens raw vision none = list_tokens raw vision (json.objects raw)

  -- The tokens of a message's content, and whether an image was seen so far.
  unfoldable pub estimate_content_tokens : Option String → Bool → ℤ × Bool
  estimate_content_tokens none vision = (pos 0, vision)
  estimate_content_tokens (some raw) vision =
      if raw == "" || raw == "null"
      then (pos 0, vision)
      else value_tokens raw vision (json.text raw)

  abbrev pub message_tokens : Map String → ℤ × Bool → ℤ × Bool
  message_tokens message (tokens, vision) =
      let (content, vision') = estimate_content_tokens (lookup "content" message) vision in
      let name = byte_length (get_or (lookup "name" message) "") / 4 in
      (add_int (add_int tokens content) (pos name), vision')

  unfoldable pub messages_tokens : List (Map String) → ℤ × Bool → ℤ × Bool
  messages_tokens [] acc = acc
  messages_tokens (message ∷ messages) acc = messages_tokens messages (message_tokens message acc)

  abbrev counted_tools : String → ℤ → Option (List String) → ℤ × ℤ
  counted_tools raw tokens none = (pos 0, tokens)
  counted_tools raw tokens (some tools) =
      (pos (length tools), add_int tokens (pos (byte_length raw / 4)))

  -- The number of tools, and the input tokens with them.
  abbrev tool_tokens : Option String → ℤ → ℤ × ℤ
  tool_tokens none tokens = (pos 0, tokens)
  tool_tokens (some raw) tokens = counted_tools raw tokens (json.array raw)

  abbrev integer_or : Option String → ℤ → ℤ
  integer_or none default = default
  integer_or (some raw) default = get_or (json.integer raw) default

  abbrev read_output : Map String → ℤ
  read_output raw =
      if has_key "max_completion_tokens" raw
      then integer_or (lookup "max_completion_tokens" raw) (pos 512)
      else integer_or (lookup "max_tokens" raw) (pos 512)

  unfoldable pub expected_output : Map String → ℤ
  expected_output raw =
      let asked = read_output raw in if leb_ℤ asked (pos 0) then pos 512 else asked

  abbrev with_defaults : RoutingMetadata F → RoutingMetadata F
  with_defaults metadata = record metadata {
    workflow = or_else metadata.workflow "default";
    step = or_else metadata.step "response";
    risk_class = or_any metadata.risk_class;
  }

module _ {F : Type 0} ⦃d : Double F⦄ (json : Decoder F) where
  -- The metadata of a body without any.
  abbrev pub no_metadata : RoutingMetadata F
  no_metadata = record {
    trace_id = "";
    workflow = "";
    step = "";
    risk_class = any_risk;
    deadline_ms = pos 0;
    policy_id = "";
    required_region = "";
    required_privacy = any_privacy;
    max_cost_usd = zero_float;
  }

  -- `math.Max(1, float64(n))`, back as an `int`.
  abbrev at_least_one : ℤ → ℤ
  at_least_one n = d.to_int (d.max one_float (d.of_int n))

  unfoldable pub features_of : Map String → RoutingMetadata F → List (Map String) → Features F
  features_of raw metadata messages =
      let (tokens, vision) = messages_tokens json messages (pos 0, false) in
      let (tools, tokens') = tool_tokens json (lookup "tools" raw) tokens in
      record {
        input_tokens = at_least_one (add_int tokens' (pos (8 * length messages)));
        expected_output_tokens = expected_output json raw;
        message_count = pos (length messages);
        tool_count = tools;
        has_vision = vision;
        has_structured_output = has_key "response_format" raw;
        risk = risk_value metadata.risk_class;
      }

  abbrev read_stream : Option String → Bool
  read_stream none = false
  read_stream (some raw) = get_or (json.boolean raw) false

  -- The request, when the body, the messages and the metadata are there.
  abbrev pub request_of : Map String → List (Map String) → RoutingMetadata F → Request F
  request_of raw messages metadata =
      let metadata' = with_defaults json metadata in
      let rest = remove "routing" raw in
      record {
        raw = rest;
        metadata = metadata';
        features = features_of rest metadata' messages;
        requested_model = text_of json (lookup "model" rest);
        stream = read_stream (lookup "stream" rest);
      }

  abbrev read_metadata : Option String → Option (RoutingMetadata F)
  read_metadata none = some no_metadata
  read_metadata (some raw) = json.metadata raw

  abbrev with_metadata :
      Map String → List (Map String) → Option (RoutingMetadata F) → ParseError ⊎ Request F
  with_metadata raw messages none = inl metadata_not_decoded
  with_metadata raw messages (some metadata) = inr (request_of raw messages metadata)

  abbrev with_messages : Map String → Option (List (Map String)) → ParseError ⊎ Request F
  with_messages raw none = inl messages_empty
  with_messages raw (some []) = inl messages_empty
  with_messages raw (some (message ∷ messages)) =
      with_metadata raw (message ∷ messages) (read_metadata (lookup "routing" raw))

  abbrev with_raw_messages : Map String → Option String → ParseError ⊎ Request F
  with_raw_messages raw none = inl messages_required
  with_raw_messages raw (some value) = with_messages raw (json.objects value)

  abbrev with_object : Option (Map String) → ParseError ⊎ Request F
  with_object none = inl not_decoded
  with_object (some raw) = with_raw_messages raw (lookup "messages" raw)

  unfoldable pub parse_request : List ℕ → ParseError ⊎ Request F
  parse_request body =
      if is_empty body
      then inl empty_body
      else if ltb max_request_bytes (length body)
      then inl body_too_large
      else with_object (json.object body)
