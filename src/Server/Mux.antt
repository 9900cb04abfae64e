-- ===== src/Server/Mux.antt =====
-- internal/api/server.go: the patterns of `Handler`, and what net/http's ServeMux makes of them. None
-- of the patterns overlap, so their order does not matter.
use outcome_router.Base.{
  String, Bool, ◌&&◌, ◌||◌, Option, none, some, List, [], ◌∷◌, if◌then◌else◌, ◌==◌,
}

-- A handler, with the decision's id from the path.
pub data Endpoint : Type 0 where
  health_endpoint chat_endpoint outcomes_endpoint : Endpoint
  decision_endpoint : String → Endpoint
  summary_endpoint policies_endpoint put_policy_endpoint : Endpoint

pub data Part : Type 0 where
  literal : String → Part
  wildcard : Part

-- A pattern, and the handler for the values of its wildcards.
pub record Pattern : Type 0 where
  pub method : String
  pub parts : List Part
  pub endpoint : List String → Option Endpoint

abbrev fixed : Endpoint → List String → Option Endpoint
fixed endpoint values = some endpoint

abbrev for_decision : List String → Option Endpoint
for_decision (id ∷ []) = some (decision_endpoint id)
for_decision _ = none

abbrev pattern_of : String → List Part → (List String → Option Endpoint) → Pattern
pattern_of method parts endpoint = record { method = method; parts = parts; endpoint = endpoint }

-- The table of `Handler`.
abbrev pub patterns : List Pattern
patterns =
    pattern_of "GET" (literal "healthz" ∷ []) (fixed health_endpoint)
    ∷ pattern_of "GET" (literal "readyz" ∷ []) (fixed health_endpoint)
    ∷ pattern_of "POST" (literal "v1" ∷ literal "chat" ∷ literal "completions" ∷ [])
        (fixed chat_endpoint)
    ∷ pattern_of "POST" (literal "v1" ∷ literal "outcomes" ∷ []) (fixed outcomes_endpoint)
    ∷ pattern_of "GET" (literal "v1" ∷ literal "decisions" ∷ wildcard ∷ []) for_decision
    ∷ pattern_of "GET" (literal "v1" ∷ literal "audit" ∷ literal "summary" ∷ [])
        (fixed summary_endpoint)
    ∷ pattern_of "GET" (literal "v1" ∷ literal "policies" ∷ []) (fixed policies_endpoint)
    ∷ pattern_of "POST" (literal "v1" ∷ literal "policies" ∷ []) (fixed put_policy_endpoint)
    ∷ []

abbrev with_value : String → Option (List String) → Option (List String)
with_value segment none = none
with_value segment (some values) = some (segment ∷ values)

-- The values of the wildcards, if the segments of the path match. A wildcard is one segment that is
-- not empty.
abbrev pub match_parts : List Part → List String → Option (List String)
match_parts [] [] = some []
match_parts (literal text ∷ parts) (segment ∷ segments) =
    let rest = match_parts parts segments in if text == segment then rest else none
match_parts (wildcard ∷ parts) (segment ∷ segments) =
    let rest = match_parts parts segments in if segment == "" then none else with_value segment rest
match_parts _ _ = none

-- A pattern for GET takes HEAD too.
abbrev pub match_method : String → String → Bool
match_method wanted method = wanted == method || (wanted == "GET" && method == "HEAD")

pub data Found : Type 0 where
  not_found method_not_allowed : Found
  found : Endpoint → Found

abbrev found_or : Found → Option Endpoint → Found
found_or otherwise none = otherwise
found_or otherwise (some endpoint) = found endpoint

abbrev unless_found : Found → Found
unless_found (found endpoint) = found endpoint
unless_found _ = method_not_allowed

abbrev take_pattern : Pattern → String → Found → Option (List String) → Found
take_pattern pattern method rest none = rest
take_pattern pattern method rest (some values) =
    if match_method pattern.method method
    then found_or rest (pattern.endpoint values)
    else unless_found rest

-- The handler for a method and the segments of a path.
unfoldable pub find_handler : List Pattern → String → List String → Found
find_handler [] method segments = not_found
find_handler (pattern ∷ rest) method segments =
    let later = find_handler rest method segments in
    take_pattern pattern method later (match_parts pattern.parts segments)
