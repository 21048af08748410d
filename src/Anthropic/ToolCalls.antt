-- ===== src/Anthropic/ToolCalls.antt =====
-- Tool calls go from Anthropic to the caller and back.
use agnos_proxy_oss.Base.{
  ℕ, suc, ◌≡◌, refl, ap, ◌∙◌, String, ◌<>◌, false, some, List, [], ◌∷◌, ◌++◌, if◌then◌else◌,
  string_eq, not, Bool-cases, inl, inr,
}
use text.Mathlib.TextLemmas.{append-nil}
use agnos_proxy_oss.Base.Json.{Json, str, arr, obj, Fields, end, field, get, or_else, items}
use agnos_proxy_oss.Anthropic.{Library, object, array, objects_in, fields_of}
use agnos_proxy_oss.Anthropic.Request.{
  text_blocks, tool_use_block, tool_use_blocks, translate_message, tool_input,
}
use agnos_proxy_oss.Anthropic.Response.{
  answer_text, tool_call, tool_calls_from, answer_message, text_or_null,
}

-- What a tool_use block of an answer says.
pub record Call : Type 0 where
  pub id : String
  pub name : String
  pub input : Fields

-- The blocks of an answer with an optional text and some calls.
abbrev pub use_block : Call → Json
use_block c = object (
    ("type", str "tool_use")
    ∷ ("id", str c.id)
    ∷ ("name", str c.name)
    ∷ ("input", obj c.input)
    ∷ [])

abbrev pub use_blocks : List Call → List Json
use_blocks [] = []
use_blocks (c ∷ cs) = use_block c ∷ use_blocks cs

-- The call has an identifier, and the JSON library reads the text that it writes of the input.
pub record IsReadable (lib : Library) (c : Call) : Type 0 where
  pub has_id : string_eq.beq c.id "" ≡ false
  pub has_text : string_eq.beq (lib.dumps (obj c.input)) "" ≡ false
  pub reads_back : lib.loads (lib.dumps (obj c.input)) ≡ some (obj c.input)

abbrev pub AreReadable : Library → List Call → Type 0
AreReadable lib [] = Unit
AreReadable lib (c ∷ cs) = IsReadable lib c × AreReadable lib cs

or_else-empty : (d : Fields) → or_else (obj d) (obj end) ≡ obj d
or_else-empty end = refl
or_else-empty (field k v d) = refl

or_else-str : (s : String) (v : Json) → string_eq.beq s "" ≡ false → or_else (str s) v ≡ str s
or_else-str s v h = ap (λ b. if not b then str s else v) h

-- A block of the translated message, of the identifier and the arguments of its call.
abbrev call_block : Library → Json → String → Json → Json
call_block lib id name arguments = object (
    ("type", str "tool_use")
    ∷ ("id", or_else id (str ("toolu_" <> lib.fresh_id)))
    ∷ ("name", str name)
    ∷ ("input", tool_input lib (or_else arguments (str "{}")))
    ∷ [])

call_block_lem :
    (lib : Library) (id name : String) (d : Fields)
    → string_eq.beq id "" ≡ false
    → string_eq.beq (lib.dumps (obj d)) "" ≡ false
    → lib.loads (lib.dumps (obj d)) ≡ some (obj d)
    → call_block lib
        (or_else (str id) (str ("toolu_" <> lib.fresh_id)))
        name
        (str (lib.dumps (or_else (obj d) (obj end))))
      ≡ object
          (("type", str "tool_use") ∷ ("id", str id) ∷ ("name", str name) ∷ ("input", obj d) ∷ [])
call_block_lem lib id name d hi ht hr = rw (
  or_else-empty d,
  or_else-str id (str ("toolu_" <> lib.fresh_id)) hi,
  or_else-str (lib.dumps (obj d)) (str "{}") ht,
  hr,
  or_else-str id (str ("toolu_" <> lib.fresh_id)) hi,
)

module _ (lib : Library) where
  tool_use_block-tool_call :
      (n : ℕ) (c : Call)
      → IsReadable lib c
      → tool_use_block lib (fields_of (tool_call lib n (fields_of (use_block c)))) ≡ use_block c
  unfolding tool_use_block tool_call get
  tool_use_block-tool_call n c h =
      call_block_lem lib c.id c.name c.input h.has_id h.has_text h.reads_back

  -- The calls that an answer's blocks make are turned back into those blocks.
  tool_use_blocks-tool_calls_from :
      (n : ℕ) (cs : List Call)
      → AreReadable lib cs
      → tool_use_blocks lib (objects_in (tool_calls_from lib n (objects_in (use_blocks cs))))
        ≡ use_blocks cs
  unfolding tool_use_blocks tool_calls_from get tool_call
  tool_use_blocks-tool_calls_from n [] h = refl
  tool_use_blocks-tool_calls_from n (c ∷ cs) (h, hs) =
      rw (tool_use_blocks-tool_calls_from (suc n) cs hs)
        (ap (λ b. b ∷ use_blocks cs) (tool_use_block-tool_call n c h))

abbrev pub elements_of : Json → List Json
elements_of (arr xs) = items xs
elements_of _ = []

elements_of-array : (vs : List Json) → elements_of (array vs) ≡ vs
elements_of-array [] = refl
elements_of-array (v ∷ vs) = ap (λ ws. v ∷ ws) (elements_of-array vs)

-- The blocks of an answer: its text, when it has one, before its calls.
abbrev pub answer_blocks : String → List Call → List Fields
answer_blocks t cs = objects_in (text_blocks (str t) ++ use_blocks cs)

answer_text-use_blocks : (cs : List Call) → answer_text (objects_in (use_blocks cs)) ≡ ""
unfolding answer_text get
answer_text-use_blocks [] = refl
answer_text-use_blocks (c ∷ cs) = answer_text-use_blocks cs

-- The text block comes back from the message.
text_blocks-answer_text :
    (t : String) (cs : List Call)
    → text_blocks (text_or_null (answer_text (answer_blocks t cs))) ≡ text_blocks (str t)
unfolding answer_text get
text_blocks-answer_text t cs = elim (Bool-cases (string_eq.beq t "")) [
  | inl e ↦ rw (e, answer_text-use_blocks cs) refl
  | inr e ↦ rw (e, answer_text-use_blocks cs, append-nil t, e, e) refl
]

tool_calls_from-answer_blocks :
    (lib : Library) (t : String) (cs : List Call)
    → tool_calls_from lib 0 (answer_blocks t cs)
      ≡ tool_calls_from lib 0 (objects_in (use_blocks cs))
unfolding tool_calls_from get
tool_calls_from-answer_blocks lib t cs = elim (Bool-cases (string_eq.beq t "")) [
  | inl e ↦ rw e refl
  | inr e ↦ rw e refl
]

-- The content blocks of an assistant's message.
abbrev pub assistant_message : List Json → Json
assistant_message blocks = object (("role", str "assistant") ∷ ("content", array blocks) ∷ [])

translate_message_calls :
    (lib : Library) (content x : Json) (xs : List Json)
    → translate_message lib (
        fields_of (
          object (
            ("role", str "assistant")
            ∷ ("content", content)
            ∷ ("tool_calls", array (x ∷ xs))
            ∷ [])))
      ≡ some (assistant_message (text_blocks content ++ tool_use_blocks lib (objects_in (x ∷ xs))))
unfolding translate_message get
translate_message_calls lib content x xs =
    ap (λ vs. some (assistant_message (text_blocks content ++ tool_use_blocks lib (objects_in vs))))
      (elements_of-array (x ∷ xs))

module _ (lib : Library) where
  -- An answer of a text, which may be empty, and one or more tool calls, of which each has an
  -- identifier and an input that the JSON library reads back from the text it writes: the message
  -- that the caller gets, sent in again with the conversation, is translated into an assistant's
  -- message with the same content blocks.
  pub translate_message-answer_message :
      (t : String) (c : Call) (cs : List Call)
      → AreReadable lib (c ∷ cs)
      → translate_message lib (fields_of (answer_message lib (answer_blocks t (c ∷ cs))))
        ≡ some (assistant_message (text_blocks (str t) ++ use_blocks (c ∷ cs)))
  unfolding answer_message tool_calls_from get
  translate_message-answer_message t c cs h = rw (tool_calls_from-answer_blocks lib t (c ∷ cs)) (
      translate_message_calls lib (text_or_null (answer_text (answer_blocks t (c ∷ cs))))
        (tool_call lib 0 (fields_of (use_block c)))
        (tool_calls_from lib 1 (objects_in (use_blocks cs)))
      ∙ ap (λ vs. some (assistant_message vs))
          (rw (text_blocks-answer_text t (c ∷ cs)) (
            ap (λ vs. text_blocks (str t) ++ vs)
              (tool_use_blocks-tool_calls_from lib 0 (c ∷ cs) h))))
