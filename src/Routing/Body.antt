-- ===== src/Routing/Body.antt =====
-- internal/routing/request.go: `BodyForModel`, the request that a provider is sent.
pub mod Fields
use outcome_router.Base.{ℕ, String, Bool, Option, none, some, List, Map, lookup, insert, ◌⊎◌}
use outcome_router.Routing.Feasible.{Request}

-- What the code uses of encoding/json to write: a text, a Boolean, and an object of raw values, which
-- is an error where a value is no JSON.
pub record Encoder : Type 0 where
  pub text : String → String
  pub boolean : Bool → String
  pub object : Map String → String ⊎ List ℕ

abbrev with_stream : Encoder → Option Bool → Map String → Map String
with_stream json none body = body
with_stream json (some stream) body = insert "stream" (json.boolean stream) body

-- The object before it is encoded.
unfoldable pub fields_for_model :
    {F : Type 0} → Encoder → Request F → String → Option Bool → Map String
fields_for_model json r upstream_model stream =
    with_stream json stream (insert "model" (json.text upstream_model) r.raw)

abbrev pub body_for_model :
    {F : Type 0} → Encoder → Request F → String → Option Bool → String ⊎ List ℕ
body_for_model json r upstream_model stream =
    json.object (fields_for_model json r upstream_model stream)
