-- ===== src/Chat/Stream.antt =====
-- `_stream` of gateway/routes/chat.py: the chunks of an engine are passed on and parsed for the record. A token
-- count that is no whole number counts as missing, and a piece of content that is not a text is
-- left out.
use agnos_proxy_oss.Base.{
  ℕ, zero, suc, String, ◌<>◌, Bool, true, false, Option, none, some, List, [], ◌∷◌, ◌++◌, ◌&&◌, not,
  eqb, if◌then◌else◌, is_empty, string_eq, contains, all, ◌==◌,
}
use agnos_proxy_oss.Base.Text.{Text, text, strip, begins, occurs}
use agnos_proxy_oss.Base.Json.{Json, str, arr, obj, cons, get_or_null, get, is_truthy, items}
use agnos_proxy_oss.Registry.{ResolvedTarget}
use agnos_proxy_oss.Pricing.{compute_cost}
use agnos_proxy_oss.Budgets.{add_live_spend}
use agnos_proxy_oss.Guardrails.Evaluate.{evaluate_output}
use agnos_proxy_oss.Errors.{map_exception}
use agnos_proxy_oss.Fallback.{Credential}
use agnos_proxy_oss.Engines.{Engine}
use agnos_proxy_oss.Chunker.{count_message_tokens}
use agnos_proxy_oss.Chat.{
  Body, request_error, request_success, Externals, Process, Surroundings, Response, Streamed,
  streamed, emit,
}
use agnos_proxy_oss.Chat.Parts.{Routed, decisions, messages_of}
use agnos_proxy_oss.Chat.Serve.{count_of, type_name}

-- What the loop has seen: the tokens of the input and the output, and the pieces of the answer.
pub record Seen : Type 0 where
  pub in_tok : ℕ
  pub out_tok : ℕ
  pub out_text : List String

abbrev pub drop_prefix : ℕ → Text → Text
drop_prefix zero s = s
drop_prefix (suc n) [] = []
drop_prefix (suc n) (c ∷ s) = drop_prefix n s

-- The payload of a line of the stream, if it has one that can be parsed.
unfoldable pub payload_of : (Text → Option Json) → Text → Option Json
unfolding begins occurs strip
payload_of parse_line line =
    if begins line (text "data: ") && not (occurs (text "[DONE]") line)
    then parse_line (strip (drop_prefix 6 line))
    else none

-- `u.get(key, seen) or seen`
abbrev pub count_or : Json → ℕ → ℕ
count_or v seen = if eqb (count_of v) 0 then seen else count_of v

abbrev pub counted : Json → Seen → Seen
counted (obj u) s = record s {
  in_tok = count_or (get_or_null "prompt_tokens" u) s.in_tok;
  out_tok = count_or (get_or_null "completion_tokens" u) s.out_tok;
}
counted _ s = s

-- A truthy text.
abbrev pub piece : Json → List String
piece (str t) = if t == "" then [] else t ∷ []
piece _ = []

abbrev pub function_texts : Json → List String
function_texts (obj fn) = piece (get_or_null "name" fn) ++ piece (get_or_null "arguments" fn)
function_texts _ = []

-- Whether `(v or {}).get` raises.
abbrev pub unreadable : Json → Bool
unreadable (obj d) = false
unreadable v = is_truthy v

-- The loop over the tool calls, up to the first one that raises.
unfoldable pub tool_texts : List Json → List String
unfolding get
tool_texts [] = []
tool_texts (obj tc ∷ tcs) =
    let rest = tool_texts tcs in
    let fn = get_or_null "function" tc in if unreadable fn then [] else function_texts fn ++ rest
tool_texts (v ∷ tcs) = []

abbrev pub calls_in : Json → List Json
calls_in (arr xs) = items xs
calls_in _ = []

abbrev pub delta_texts : Json → List String
delta_texts (obj delta) =
    piece (get_or_null "content" delta) ++ tool_texts (calls_in (get_or_null "tool_calls" delta))
delta_texts _ = []

abbrev pub choice_texts : Json → List String
choice_texts (arr (cons (obj choice) rest)) = delta_texts (get_or_null "delta" choice)
choice_texts _ = []

abbrev pub add_texts : List String → Seen → Seen
add_texts ts s = record s { out_text = s.out_text ++ ts }

-- The `try` of one payload: an exception keeps what was read before it.
unfoldable pub read_payload : Json → Seen → Seen
unfolding get tool_texts
read_payload (obj p) s =
    let u = get_or_null "usage" p in
    if unreadable u then s else add_texts (choice_texts (get_or_null "choices" p)) (counted u s)
read_payload _ s = s

abbrev pub read_optional : Option Json → Seen → Seen
read_optional none s = s
read_optional (some p) s = read_payload p s

unfoldable pub read_chunks : (Text → Option Json) → List Text → Seen → Seen
unfolding payload_of read_payload
read_chunks parse_line [] s = s
read_chunks parse_line (c ∷ cs) s =
    read_chunks parse_line cs (read_optional (payload_of parse_line c) s)

abbrev pub nothing_seen : Seen
nothing_seen = record { in_tok = 0; out_tok = 0; out_text = [] }

unfoldable pub joined : List String → String
joined [] = ""
joined (t ∷ ts) = t <> joined ts

-- The fields of `RequestErrorEvent`, and the keywords that `_stream` passes to it. Its constructor
-- raises for a keyword that is no field.
abbrev pub error_event_fields : List String
error_event_fields =
    "request_id" ∷ "workspace_id" ∷ "user_id" ∷ "model_alias" ∷ "provider" ∷ "engine" ∷ "error_type"
    ∷ "http_status" ∷ "message" ∷ "latency_ms" ∷ "client_id" ∷ "component" ∷ "error_detail"
    ∷ "use_case" ∷ "input_tokens" ∷ "provider_model_id" ∷ "call_kind" ∷ []

abbrev pub stream_error_keywords : List String
stream_error_keywords =
    "request_id" ∷ "workspace_id" ∷ "user_id" ∷ "model_alias" ∷ "provider" ∷ "engine" ∷ "error_type"
    ∷ "http_status" ∷ "message" ∷ "latency_ms" ∷ "stream" ∷ "client_id" ∷ "component" ∷ "use_case"
    ∷ "input_tokens" ∷ "provider_model_id" ∷ []

unfoldable pub accepts : List String → List String → Bool
accepts fields keywords = all (contains fields) keywords

module _ (X : Externals) where
  open X use {lib, columns, upstream}

  -- `_attach_credentials`
  abbrev pub attached : Option Credential → ResolvedTarget → ResolvedTarget
  attached none t = t
  attached (some c) t = record t {
    credentials = c.credentials;
    config = c.config;
    bifrost_key_name = c.bifrost_key_name;
  }

  -- The counts once the missing ones are filled in.
  abbrev pub backfilled : Body → Seen → ℕ × ℕ
  backfilled b s = (
    if eqb s.in_tok 0 then count_message_tokens lib.encode (messages_of b) else s.in_tok,
    if eqb s.out_tok 0 && not (is_empty s.out_text)
        then (if joined s.out_text == "" then 0 else lib.encode (joined s.out_text))
        else s.out_tok,
  )

  -- The record of a stream that ended without an exception.
  abbrev pub stream_ended :
      Surroundings → Routed → Engine → ResolvedTarget → Seen → Process X → Process X
  stream_ended s r e t seen g =
      let (i, o) = backfilled r.body seen in
      let cost = compute_cost s.prices (text t.model_id) i o in
      let (found, c) =
        evaluate_output lib.guardrails (columns r.context).guardrails (joined seen.out_text)
          r.who.workspace_id r.who.component s.output_now s.guardrail_tables g.rules in
      let (ledger, alerted) = g.ledger in
      record g {
        rules = c;
        events =
            g.events
            ++ decisions r.who "output-audit" "audit" "output" found
            ++ (request_success r.who t e i o cost true ∷ []);
        ledger = (
          add_live_spend r.who.client_id r.who.workspace_id r.who.user_id cost (some t.model_id)
              s.spend_now ledger,
          alerted,
        );
      }

  -- The record of a stream that the provider broke off.
  abbrev pub stream_failed : Routed → Engine → ResolvedTarget → Text → Seen → Process X → Process X
  stream_failed r e t name seen g =
      let (code, type_) = map_exception name in
      if accepts error_event_fields stream_error_keywords
      then emit (request_error r.who t.provider e (type_name type_) code (backfilled r.body seen).0)
          g
      else g

  abbrev pub recorded :
      Surroundings → Routed → Engine → ResolvedTarget → Streamed → Process X → Process X
  recorded s r e t st g =
      let seen = read_chunks lib.parse_line st.chunks nothing_seen in
      elim st.failure [
        | none ↦ stream_ended s r e t seen g
        | some name ↦ stream_failed r e t name seen g
      ]

  -- The stream branch of the handler, run to its end.
  unfoldable pub stream : Surroundings → Routed → Engine → Process X → Response × Process X
  unfolding read_chunks joined count_message_tokens evaluate_output compute_cost add_live_spend
      map_exception accepts
  stream s r e g =
      let (cred, w) = upstream.credential r.who.workspace_id r.target.provider g.upstream in
      let t = attached cred r.target in
      let (st, w') = upstream.chat_stream e r.body t w in
      (streamed st, recorded s r e t st (record g { upstream = w' }))
