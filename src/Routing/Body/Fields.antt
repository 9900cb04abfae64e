-- ===== src/Routing/Body/Fields.antt =====
-- The fields of the body that a provider is sent.
use outcome_router.Base.{
  String, ◌≡◌, refl, Bool, false, none, some, lookup, lookup-insert, lookup-insert_self, ◌==◌,
}
use outcome_router.Routing.Feasible.{Request}
use outcome_router.Routing.Body.{Encoder, fields_for_model}

-- The model is the one asked for, the stream flag is the one given if one is given, and every other
-- field is the client's.
pub fields_for_model_lem :
    {F : Type 0} (json : Encoder) (r : Request F) (upstream_model : String) (stream : Bool)
    → (lookup "model" (fields_for_model json r upstream_model none)
        ≡ some (json.text upstream_model))
      × (lookup "model" (fields_for_model json r upstream_model (some stream))
          ≡ some (json.text upstream_model))
      × (lookup "stream" (fields_for_model json r upstream_model (some stream))
          ≡ some (json.boolean stream))
      × ((key : String)
          → ("model" == key) ≡ false
          → (lookup key (fields_for_model json r upstream_model none) ≡ lookup key r.raw)
            × (("stream" == key) ≡ false
                → lookup key (fields_for_model json r upstream_model (some stream))
                  ≡ lookup key r.raw))
unfolding fields_for_model
fields_for_model_lem json r upstream_model stream = (
  lookup-insert_self "model" (json.text upstream_model) r.raw,
  rw (lookup-insert) (lookup-insert_self "model" (json.text upstream_model) r.raw),
  lookup-insert_self "stream" (json.boolean stream) _,
  λ key other. (
    rw (lookup-insert, other) refl,
    λ unstreamed. rw (lookup-insert, unstreamed) (rw (lookup-insert, other) refl),
  ),
)
