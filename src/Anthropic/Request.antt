-- ===== src/Anthropic/Request.antt =====
-- gateway/engines/anthropic_direct.py: the request.
use agnos_proxy_oss.Base.{
  ℕ, String, ◌<>◌, Bool, Option, none, some, List, [], ◌∷◌, ◌++◌, ◌&&◌, ◌||◌, not, if◌then◌else◌,
  string_eq, list_eq, nat_eq, ◌==◌, is_empty,
}
use agnos_proxy_oss.Base.Text.{text, lower}
use agnos_proxy_oss.Base.Json.{
  Json, null, int, pos, str, arr, obj, Fields, end, field, get, get_or_null, is_truthy, or_else,
}
use agnos_proxy_oss.Anthropic.{Library, object, array, objects, is_text, get_or, fields_of}

-- `_translate_tools`
unfoldable pub translate_tools : List Fields → List Json
unfolding get
translate_tools [] = []
translate_tools (t ∷ ts) =
    let rest = translate_tools ts in
    let fn = fields_of (get_or "function" (obj end) t) in
    let tool = object (
      ("name", get_or_null "name" fn)
      ∷ ("description", get_or "description" (str "") fn)
      ∷ (
        "input_schema",
        get_or "parameters" (object (("type", str "object") ∷ ("properties", obj end) ∷ [])) fn,
      )
      ∷ []) in
    if not (is_text "function" (get_or_null "type" t)) || not (is_truthy (get_or_null "name" fn))
    then rest
    else tool ∷ rest

abbrev pub auto : Json
auto = object (("type", str "auto") ∷ [])

-- `_translate_tool_choice` of a choice that is an object.
abbrev pub named_choice : Fields → Json
named_choice choice =
    let name = get_or_null "name" (fields_of (get_or "function" (obj end) choice)) in
    if is_text "function" (get_or_null "type" choice) && is_truthy name
    then object (("type", str "tool") ∷ ("name", name) ∷ [])
    else auto

-- `_translate_tool_choice`
unfoldable pub translate_tool_choice : Json → Option Json
unfolding get
translate_tool_choice (str s) =
    if string_eq.beq s "none"
    then none
    else if string_eq.beq s "required"
    then some (object (("type", str "any") ∷ []))
    else some auto
translate_tool_choice (obj choice) = some (named_choice choice)
translate_tool_choice _ = some auto

-- The texts of the parts of a content that is a list.
unfoldable pub part_texts : List Fields → String
unfolding get
part_texts [] = ""
part_texts (p ∷ ps) =
    let rest = part_texts ps in
    if is_text "text" (get_or_null "type" p)
    then elim (get_or_null "text" p) [ str t ↦ t <> rest | _ ↦ rest ]
    else rest

abbrev pub text_block : String → Json
text_block t = object (("type", str "text") ∷ ("text", str t) ∷ [])

abbrev pub text_blocks : Json → List Json
text_blocks (str t) = if string_eq.beq t "" then [] else text_block t ∷ []
text_blocks _ = []

module _ (lib : Library) where
  -- `json.loads(fn.get("arguments", "{}") or "{}")`, an empty object where it raises.
  abbrev pub parsed_input : Option Json → Json
  parsed_input none = obj end
  parsed_input (some v) = v

  abbrev pub tool_input : Json → Json
  tool_input (str s) = parsed_input (lib.loads s)
  tool_input _ = obj end

  unfoldable pub tool_use_block : Fields → Json
  unfolding get
  tool_use_block tc =
      let fn = fields_of (get_or "function" (obj end) tc) in
      object (
        ("type", str "tool_use")
        ∷ ("id", or_else (get_or_null "id" tc) (str ("toolu_" <> lib.fresh_id)))
        ∷ ("name", get_or "name" (str "") fn)
        ∷ ("input", tool_input (or_else (get_or "arguments" (str "{}") fn) (str "{}")))
        ∷ [])

  unfoldable pub tool_use_blocks : List Fields → List Json
  unfolding tool_use_block
  tool_use_blocks [] = []
  tool_use_blocks (tc ∷ tcs) = tool_use_block tc ∷ tool_use_blocks tcs

  -- The content of a plain message.
  abbrev pub plain_content : Json → Json
  plain_content (str s) = str s
  plain_content (arr xs) = str (part_texts (objects (arr xs)))
  plain_content v = if is_truthy v then str (lib.written v) else str ""

  abbrev pub result_content : Json → Json
  result_content (str s) = str s
  result_content v = str (lib.dumps v)

  -- `_translate_message`; `none` drops the message.
  unfoldable pub translate_message : Fields → Option Json
  unfolding get tool_use_blocks part_texts
  translate_message msg =
      let role = get_or_null "role" msg in
      let content = get_or_null "content" msg in
      let calls = get_or_null "tool_calls" msg in
      if is_text "system" role
      then none
      else if is_text "tool" role
      then some (
          object (
            ("role", str "user")
            ∷ (
              "content",
              array (
                  object (
                    ("type", str "tool_result")
                    ∷ ("tool_use_id", get_or_null "tool_call_id" msg)
                    ∷ ("content", result_content content)
                    ∷ [])
                  ∷ []),
            )
            ∷ []))
      else if is_text "assistant" role && is_truthy calls
      then some (
          object (
            ("role", str "assistant")
            ∷ ("content", array (text_blocks content ++ tool_use_blocks (objects calls)))
            ∷ []))
      else some (object (("role", role) ∷ ("content", plain_content content) ∷ []))

  unfoldable pub translate_messages : List Fields → List Json
  unfolding translate_message
  translate_messages [] = []
  translate_messages (m ∷ ms) =
      let rest = translate_messages ms in
      elim (translate_message m) [ none ↦ rest | some t ↦ t ∷ rest ]

  -- `system_parts`
  unfoldable pub system_parts : List Fields → List String
  unfolding get
  system_parts [] = []
  system_parts (m ∷ ms) =
      let rest = system_parts ms in
      if is_text "system" (get_or_null "role" m)
      then elim (get_or_null "content" m) [ str t ↦ t ∷ rest | _ ↦ rest ]
      else rest

  unfoldable pub join_lines : List String → String
  join_lines [] = ""
  join_lines (t ∷ ts) = let rest = join_lines ts in if is_empty ts then t else t <> "\n" <> rest

  -- `_wants_prompt_cache`
  abbrev pub wants_prompt_cache : Fields → Bool
  wants_prompt_cache req =
      is_truthy (get_or_null "prompt_cache" req)
      || is_truthy (get_or_null "_agnos_prompt_cache" req)

  abbrev pub enabled : ℕ → Option Json
  enabled budget =
      some (object (("type", str "enabled") ∷ ("budget_tokens", int (pos budget)) ∷ []))

  abbrev pub effort_block : Json → Option Json
  effort_block (str e) =
      if lower (text e) == text "low"
      then enabled 2048
      else if lower (text e) == text "medium"
      then enabled 8192
      else if lower (text e) == text "high"
      then enabled 16384
      else none
  effort_block _ = none

  -- `_thinking_block`
  abbrev pub thinking_block : Fields → Option Json
  thinking_block req = elim (get_or_null "thinking" req) [
    | obj th ↦
        if is_text "enabled" (get_or_null "type" th)
        then some (obj th)
        else effort_block (get_or_null "reasoning_effort" req)
    | _ ↦ effort_block (get_or_null "reasoning_effort" req)
  ]

  abbrev pub ephemeral : Json
  ephemeral = object (("type", str "ephemeral") ∷ [])

  abbrev pub cached_object : Json → Json
  cached_object (obj d) = obj (append_field d)
    where
      append_field : Fields → Fields
      append_field end = field "cache_control" ephemeral end
      append_field (field k v rest) = field k v (append_field rest)
  cached_object v = v

  -- `tools[-1]["cache_control"] = ...`
  unfoldable pub cache_last : List Json → List Json
  cache_last [] = []
  cache_last (t ∷ []) = cached_object t ∷ []
  cache_last (t ∷ u ∷ ts) = t ∷ cache_last (u ∷ ts)

  abbrev pub system_fields : Bool → List String → List (String × Json)
  system_fields cache [] = []
  system_fields cache (p ∷ ps) =
      if cache
      then (
        "system",
        array (
            object (
              ("type", str "text")
              ∷ ("text", str (join_lines (p ∷ ps)))
              ∷ ("cache_control", ephemeral)
              ∷ [])
            ∷ []),
      )
        ∷ []
      else ("system", str (join_lines (p ∷ ps))) ∷ []

  -- A field that is copied unless it is null.
  abbrev pub copied : String → Json → List (String × Json)
  copied k null = []
  copied k v = (k, v) ∷ []

  -- The thinking block goes without the temperature.
  abbrev pub sampling_fields : Fields → Option Json → List (String × Json)
  sampling_fields req none =
      copied "temperature" (get_or_null "temperature" req)
      ++ copied "top_p" (get_or_null "top_p" req)
  sampling_fields req (some think) =
      copied "top_p" (get_or_null "top_p" req) ++ (("thinking", think) ∷ [])

  abbrev pub choice_fields : Option Json → List (String × Json)
  choice_fields none = []
  choice_fields (some c) = ("tool_choice", c) ∷ []

  abbrev pub tool_fields : Bool → Json → List Json → List (String × Json)
  tool_fields cache choice [] = []
  tool_fields cache choice (t ∷ ts) =
      ("tools", array (if cache then cache_last (t ∷ ts) else t ∷ ts))
      ∷ choice_fields (translate_tool_choice choice)

  -- `_translate_request`
  unfoldable pub translate_request : Fields → Json
  unfolding get translate_messages system_parts join_lines translate_tools translate_tool_choice
      cache_last lower
  translate_request req =
      let messages = objects (get_or "messages" (array []) req) in
      let cache = wants_prompt_cache req in
      let choice = get_or_null "tool_choice" req in
      object (
        ("model", get_or "model" (str "claude-sonnet-4-5-20250929") req)
          ∷ ("messages", array (translate_messages messages))
          ∷ ("max_tokens", get_or "max_tokens" (int (pos 1024)) req)
          ∷ []
        ++ system_fields cache (system_parts messages)
        ++ sampling_fields req (thinking_block req)
        ++ (if is_text "none" choice
            then []
            else tool_fields cache choice (translate_tools (objects (get_or_null "tools" req)))))
