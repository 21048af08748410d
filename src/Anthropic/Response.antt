-- ===== src/Anthropic/Response.antt =====
-- gateway/engines/anthropic_direct.py: the answer.
use agnos_proxy_oss.Base.{
  ℕ, suc, ◌+◌, String, ◌<>◌, Bool, true, false, List, [], ◌∷◌, ◌++◌, ◌&&◌, if◌then◌else◌, string_eq,
}
use agnos_proxy_oss.Base.Json.{
  pos, Json, null, int, str, obj, Fields, end, get, get_or_null, or_else,
}
use agnos_proxy_oss.Anthropic.{Library, object, array, objects, is_text, get_or, fields_of}

-- `_map_stop_reason`
unfoldable pub map_stop_reason : Json → String
map_stop_reason (str r) =
    if string_eq.beq r "end_turn"
    then "stop"
    else if string_eq.beq r "max_tokens"
    then "length"
    else if string_eq.beq r "tool_use"
    then "tool_calls"
    else "stop"
map_stop_reason _ = "stop"

-- The texts of the text blocks.
unfoldable pub answer_text : List Fields → String
unfolding get
answer_text [] = ""
answer_text (b ∷ bs) =
    let rest = answer_text bs in
    if is_text "text" (get_or_null "type" b)
    then elim (get_or_null "text" b) [ str t ↦ t <> rest | _ ↦ rest ]
    else rest

abbrev pub count_of : Json → ℕ
count_of (int (pos n)) = n
count_of _ = 0

abbrev pub is_null : Json → Bool
is_null null = true
is_null _ = false

-- The accounting of the prompt cache.
abbrev pub cache_fields : Json → Json → List (String × Json)
cache_fields read write =
    if is_null read && is_null write
    then []
    else ("prompt_tokens_details", object (("cached_tokens", int (pos (count_of read))) ∷ []))
      ∷ ("cache_read_input_tokens", int (pos (count_of read)))
      ∷ ("cache_creation_input_tokens", int (pos (count_of write)))
      ∷ []

unfoldable pub usage_out : Fields → Json
unfolding get
usage_out usage =
    let inp = count_of (get_or_null "input_tokens" usage) in
    let out = count_of (get_or_null "output_tokens" usage) in
    object (
      ("prompt_tokens", int (pos inp))
        ∷ ("completion_tokens", int (pos out))
        ∷ ("total_tokens", int (pos (inp + out)))
        ∷ []
      ++ cache_fields (get_or_null "cache_read_input_tokens" usage)
          (get_or_null "cache_creation_input_tokens" usage))

abbrev pub text_or_null : String → Json
text_or_null t = if string_eq.beq t "" then null else str t

module _ (lib : Library) where
  -- The tool call of a block, with its place in the list.
  unfoldable pub tool_call : ℕ → Fields → Json
  unfolding get
  tool_call n b = object (
      ("index", int (pos n))
      ∷ ("id", or_else (get_or_null "id" b) (str ("toolu_" <> lib.fresh_id)))
      ∷ ("type", str "function")
      ∷ (
        "function",
        object (
            ("name", get_or "name" (str "") b)
            ∷ ("arguments", str (lib.dumps (or_else (get_or_null "input" b) (obj end))))
            ∷ []),
      )
      ∷ [])

  unfoldable pub tool_calls_from : ℕ → List Fields → List Json
  unfolding get tool_call
  tool_calls_from n [] = []
  tool_calls_from n (b ∷ bs) =
      let call = tool_call n b ∷ tool_calls_from (suc n) bs in
      let rest = tool_calls_from n bs in
      if is_text "tool_use" (get_or_null "type" b) then call else rest

  abbrev pub call_fields : List Json → List (String × Json)
  call_fields [] = []
  call_fields (c ∷ cs) = ("tool_calls", array (c ∷ cs)) ∷ []

  -- `message`
  unfoldable pub answer_message : List Fields → Json
  unfolding answer_text tool_calls_from
  answer_message blocks = object (
      ("role", str "assistant")
      ∷ ("content", text_or_null (answer_text blocks))
      ∷ call_fields (tool_calls_from 0 blocks))

  -- `_translate_response`
  unfoldable pub translate_response : Fields → String → Json
  unfolding get answer_message map_stop_reason usage_out
  translate_response resp model =
      let blocks = objects (get_or_null "content" resp) in
      object (
        ("id", str ("chatcmpl-direct-" <> lib.fresh_id))
        ∷ ("object", str "chat.completion")
        ∷ ("created", int (pos lib.created))
        ∷ ("model", str model)
        ∷ (
          "choices",
          array (
              object (
                ("index", int (pos 0))
                ∷ ("message", answer_message blocks)
                ∷ ("finish_reason", str (map_stop_reason (get_or_null "stop_reason" resp)))
                ∷ [])
              ∷ []),
        )
        ∷ ("usage", usage_out (fields_of (get_or "usage" (obj end) resp)))
        ∷ [])
