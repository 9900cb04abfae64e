-- ===== src/Routing/Parse/Vision.antt =====
-- When a request counts as one with an image.
use outcome_router.Base.{
  ap, sym, subst, ◌∙◌, ◌≡◌, refl, ◌↔◌, ◌⊎◌, inl, inr, String, Bool, true, false, ◌||◌, Option, none,
  some, List, [], ◌∷◌, Map, arith, lookup, In, ◌==◌, Bool-cases, Option-cases,
}
use outcome_router.Base.Int.{ℤ, pos}
use outcome_router.Double.{Double}
use outcome_router.Domain.{RoutingMetadata}
use outcome_router.Routing.Parse.{
  Decoder, is_image, parts_tokens, estimate_content_tokens, message_tokens, messages_tokens,
  features_of,
}

-- A flag that a first entry may raise.
raised : (a b : Bool) → (a || b) ≡ true → (a ≡ true) ⊎ (b ≡ true)
raised a b h = ground arith

raised_first : (a b : Bool) → a ≡ true → (a || b) ≡ true
raised_first a b h = ground arith

raised_second : (a b : Bool) → b ≡ true → (a || b) ≡ true
raised_second a b h = ground arith

module _ {F : Type 0} (json : Decoder F) where
  abbrev HasPart : List (Map String) → Type 0
  HasPart parts = (part : Map String) × In part parts × (is_image json part ≡ true)

  parts-seen :
      (parts : List (Map String)) (tokens : ℤ) (vision : Bool)
      → (parts_tokens json parts (tokens, vision)).1 ≡ true
      → (vision ≡ true) ⊎ HasPart parts
  unfolding parts_tokens
  parts-seen [] tokens vision h = inl h
  parts-seen (part ∷ parts) tokens vision h =
      elim (parts-seen parts _ (vision || is_image json part) h) [
        | inl e ↦ elim (raised vision (is_image json part) e) [
          | inl before ↦ inl before
          | inr here ↦ inr (part, inl refl, here)
        ]
        | inr (p, i, image) ↦ inr (p, inr i, image)
      ]

  parts-see :
      (parts : List (Map String)) (tokens : ℤ) (vision : Bool)
      → (vision ≡ true) ⊎ HasPart parts
      → (parts_tokens json parts (tokens, vision)).1 ≡ true
  unfolding parts_tokens
  parts-see [] tokens vision (inl h) = h
  parts-see [] tokens vision (inr (p, i, image)) = absurd i
  parts-see (part ∷ parts) tokens vision (inl h) =
      parts-see parts _ _ (inl (raised_first vision (is_image json part) h))
  parts-see (part ∷ parts) tokens vision (inr (p, inl e, image)) =
      parts-see parts _ _
        (inl (raised_second vision (is_image json part) (ap (is_image json) e ∙ image)))
  parts-see (part ∷ parts) tokens vision (inr (p, inr i, image)) =
      parts-see parts _ _ (inr (p, i, image))

  -- The content of a message is no text, and a list with an image.
  pub record HasImage (message : Map String) : Type 0 where
    pub raw : String
    pub content : lookup "content" message ≡ some raw
    pub is_given : (raw == "" || raw == "null") ≡ false
    pub is_no_text : json.text raw ≡ none
    pub parts : List (Map String)
    pub are_parts : json.objects raw ≡ some parts
    pub has_part : HasPart parts

  content-seen :
      (message : Map String) (vision : Bool) (content : Option String)
      → lookup "content" message ≡ content
      → (estimate_content_tokens json content vision).1 ≡ true
      → (vision ≡ true) ⊎ HasImage message
  unfolding estimate_content_tokens
  content-seen message vision none e h = inl h
  content-seen message vision (some raw) e h = elim (Bool-cases (raw == "" || raw == "null")) [
    | inl nothing ↦ inl (rw (nothing) at h)
    | inr given ↦ elim (Option-cases (json.text raw)) [
      | inr (text, is) ↦ inl (rw (given, is) at h)
      | inl no_text ↦ elim (Option-cases (json.objects raw)) [
        | inl not_list ↦ inl (rw (given, no_text, not_list) at h)
        | inr (parts, are) ↦
            elim (parts-seen parts (pos 0) vision (rw (given, no_text, are) at h)) [
              | inl before ↦ inl before
              | inr has ↦ inr (record {
                raw = raw;
                content = e;
                is_given = given;
                is_no_text = no_text;
                parts = parts;
                are_parts = are;
                has_part = has;
              })
            ]
      ]
    ]
  ]

  content-see :
      (message : Map String) (vision : Bool)
      → HasImage message
      → (estimate_content_tokens json (lookup "content" message) vision).1 ≡ true
  unfolding estimate_content_tokens
  content-see message vision k =
      rw (k.content, k.is_given, k.is_no_text, k.are_parts)
        (parts-see k.parts (pos 0) vision (inr k.has_part))

  -- What is seen stays seen.
  content-keep : (content : Option String) → (estimate_content_tokens json content true).1 ≡ true
  unfolding estimate_content_tokens
  content-keep none = refl
  content-keep (some raw) = elim (Bool-cases (raw == "" || raw == "null")) [
    | inl nothing ↦ rw (nothing) refl
    | inr given ↦ elim (Option-cases (json.text raw)) [
      | inr (text, is) ↦ rw (given, is) refl
      | inl no_text ↦ elim (Option-cases (json.objects raw)) [
        | inl not_list ↦ rw (given, no_text, not_list) refl
        | inr (parts, are) ↦ rw (given, no_text, are) (parts-see parts (pos 0) true (inl refl))
      ]
    ]
  ]

  abbrev HasImages : List (Map String) → Type 0
  HasImages messages = (message : Map String) × In message messages × HasImage message

  messages-seen :
      (messages : List (Map String)) (acc : ℤ × Bool)
      → (messages_tokens json messages acc).1 ≡ true
      → (acc.1 ≡ true) ⊎ HasImages messages
  unfolding messages_tokens
  messages-seen [] acc h = inl h
  messages-seen (message ∷ messages) (tokens, vision) h =
      elim (messages-seen messages (message_tokens json message (tokens, vision)) h) [
        | inl e ↦ elim (content-seen message vision (lookup "content" message) refl e) [
          | inl before ↦ inl before
          | inr here ↦ inr (message, inl refl, here)
        ]
        | inr (m, i, image) ↦ inr (m, inr i, image)
      ]

  seen_by :
      (content : Option String) (vision : Bool)
      → vision ≡ true
      → (estimate_content_tokens json content vision).1 ≡ true
  seen_by content vision h = rw (h) (content-keep content)

  messages-see :
      (messages : List (Map String)) (acc : ℤ × Bool)
      → (acc.1 ≡ true) ⊎ HasImages messages
      → (messages_tokens json messages acc).1 ≡ true
  unfolding messages_tokens
  messages-see [] acc (inl h) = h
  messages-see [] acc (inr (m, i, image)) = absurd i
  messages-see (message ∷ messages) (tokens, vision) (inl h) =
      messages-see messages _ (inl (seen_by (lookup "content" message) vision h))
  messages-see (message ∷ messages) (tokens, vision) (inr (m, inl e, image)) =
      messages-see messages _ (inl (content-see message vision (subst HasImage (sym e) image)))
  messages-see (message ∷ messages) (tokens, vision) (inr (m, inr i, image)) =
      messages-see messages _ (inr (m, i, image))

  from_start :
      (messages : List (Map String))
      → (messages_tokens json messages (pos 0, false)).1 ≡ true
      → HasImages messages
  from_start messages h = elim (messages-seen messages (pos 0, false) h) [
    | inl never ↦ cc
    | inr images ↦ images
  ]

  -- The features say that a request has an image exactly when some message's content is no text and
  -- decodes as a list of parts with an image among them, wherever it stands.
  features_of-vision :
      ⦃d : Double F⦄
      → (raw : Map String) (metadata : RoutingMetadata F) (messages : List (Map String))
      → ((features_of json raw metadata messages).has_vision ≡ true) ↔ HasImages messages
  unfolding features_of
  features_of-vision raw metadata messages =
      (λ h. from_start messages h, λ images. messages-see messages (pos 0, false) (inr images))
