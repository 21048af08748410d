-- ===== src/Anthropic.antt =====
-- gateway/engines/anthropic_direct.py: the translation of an OpenAI request to Anthropic's Messages API and of its answer
-- back. The JSON library, the fresh identifiers, the clock and `str` of a value that is no text are
-- the parameter `Library`. An element of a list of messages, tools, calls or blocks that is no
-- object, at which the code raises, is left out, and a token count that is no whole number is 0.
pub mod Request
pub mod Response
pub mod ToolCalls
mod Tests
use agnos_proxy_oss.Base.{
  ℕ, ◌+◌, String, Bool, true, false, Option, none, some, List, [], ◌∷◌, ◌++◌, if◌then◌else◌,
  string_eq,
}
use agnos_proxy_oss.Base.Json.{
  ℤ, pos, Json, null, int, str, arr, obj, Items, nil, cons, Fields, end, field, get, get_or_null,
  items,
}

pub record Library : Type 0 where
  pub dumps : Json → String
  pub loads : String → Option Json
  pub fresh_id : String
  pub written : Json → String
  pub created : ℕ

-- A JSON object and a JSON list.
abbrev pub object : List (String × Json) → Json
object kvs = obj (fields kvs)
  where
    fields : List (String × Json) → Fields
    fields [] = end
    fields ((k, v) ∷ rest) = field k v (fields rest)

abbrev pub array : List Json → Json
array vs = arr (elements vs)
  where
    elements : List Json → Items
    elements [] = nil
    elements (v ∷ rest) = cons v (elements rest)

-- The objects of a list.
abbrev pub objects_in : List Json → List Fields
objects_in [] = []
objects_in (obj d ∷ vs) = d ∷ objects_in vs
objects_in (v ∷ vs) = objects_in vs

abbrev pub objects : Json → List Fields
objects (arr xs) = objects_in (items xs)
objects _ = []

abbrev pub is_text : String → Json → Bool
is_text s (str t) = string_eq.beq t s
is_text s _ = false

-- `d.get(k, default)`
abbrev pub get_or : String → Json → Fields → Json
get_or k default d = elim (get k d) [ none ↦ default | some v ↦ v ]

-- `d.get(k, {})`, as an object.
abbrev pub fields_of : Json → Fields
fields_of (obj d) = d
fields_of _ = end
