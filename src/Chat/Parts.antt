-- ===== src/Chat/Parts.antt =====
-- gateway/routes/chat.py: what the stages of the handler compute, without their state. The digits that
-- Python's `isdigit` knows are those of Latin-1, the encoding of a header.
use agnos_proxy_oss.Base.{
  ℕ, ◌/◌, max, min, String, Bool, true, false, Option, none, some, List, [], ◌∷◌, ◌++◌, ◌&&◌, ◌||◌,
  not, eqb, leb, if◌then◌else◌, all, is_empty, string_eq, ◌==◌, nat_eq, list_eq,
}
use agnos_proxy_oss.Base.Text.{Text, text, strip}
use agnos_proxy_oss.Base.Json.{ℤ, pos, negsuc, Json, bool, int, float, digits_value, end}
use agnos_proxy_oss.Auth.{WorkspaceContext}
use agnos_proxy_oss.Registry.{ResolvedTarget}
use agnos_proxy_oss.Registry
use agnos_proxy_oss.RateLimit
use agnos_proxy_oss.RateLimit.{
  Kind, rpm_kind, tpm_kind, Scope, user_scope, workspace_scope, client_scope, model_scope, Verdict,
}
use agnos_proxy_oss.Guardrails
use agnos_proxy_oss.Chunker.{Message, Info}
use agnos_proxy_oss.Chat.{
  Body, Attribution, Event, guardrail_decision, Header, limit_requests, limit_tokens, retry_after,
}

-- `body.get("messages", [])`
abbrev pub messages_of : Body → List Message
messages_of b = elim b.messages [ none ↦ [] | some ms ↦ ms ]

-- A request once its targets are known.
pub record Routed : Type 0 where
  pub body : Body
  pub context : WorkspaceContext
  pub who : Attribution
  pub target : ResolvedTarget
  pub targets : List ResolvedTarget
  pub est_tokens : ℕ
  pub redacted : Bool
  pub info : Option Info

-- `[int(x) for x in ids_hdr.split(",") if x.strip().isdigit()]`; an exception is `none`.
unfoldable pub split_commas : Text → Text → List Text
split_commas word [] = word ∷ []
split_commas word (c ∷ s) =
    let broken = split_commas [] s in
    let longer = split_commas (word_append word c) s in if eqb c b',' then word ∷ broken else longer
  where
    word_append : Text → ℕ → Text
    word_append [] c = c ∷ []
    word_append (d ∷ w) c = d ∷ word_append w c

abbrev pub is_digit : ℕ → Bool
is_digit c = (leb b'0' c && leb c b'9') || eqb c 178 || eqb c 179 || eqb c 185

abbrev pub id_of : Text → Option (List ℕ) → Option (List ℕ)
id_of x none = none
id_of x (some ids) = elim (digits_value false 0 x) [ none ↦ none | some n ↦ some (n ∷ ids) ]

unfoldable pub ids_of : List Text → Option (List ℕ)
unfolding digits_value strip
ids_of [] = some []
ids_of (x ∷ xs) =
    let rest = ids_of xs in
    if not (is_empty (strip x)) && all is_digit (strip x) then id_of (strip x) rest else rest

abbrev pub selected_ids : Option String → Option (List ℕ)
selected_ids none = some []
selected_ids (some s) = if s == "" then some [] else ids_of (split_commas [] (text s))

-- `rate_limit_headers` of gateway/core/rate_limit.py, for the tenths of a second to wait.
abbrev pub dimension : (ℕ → ℕ → ℕ → Header) → Option ℕ → Bool → ℕ → List Header
dimension h none breached reset = []
dimension h (some n) breached reset =
    if eqb n 0 then [] else h n (if breached then 0 else n) reset ∷ []

abbrev pub is_rpm : Kind → Bool
is_rpm rpm_kind = true
is_rpm tpm_kind = false

unfoldable pub rate_limit_headers : RateLimit.Limits → Kind → ℕ → ℕ → List Header
rate_limit_headers quota kind tenths reset =
    dimension limit_requests quota.rpm (is_rpm kind) reset
    ++ dimension limit_tokens quota.tpm (not (is_rpm kind)) reset
    ++ (retry_after (max 1 (tenths / 10)) ∷ [])

-- The statuses of an `HTTPException` of the routing; another exception is `none`.
abbrev pub http_status : Registry.Error → Option ℕ
http_status Registry.default_alias_missing = some 400
http_status Registry.no_chat_models = some 400
http_status Registry.model_not_registered = some 404
http_status (Registry.key_error k) = none
http_status Registry.type_error = none
http_status Registry.value_error = none

-- The limits of a scope that has refused: `scope_quota`.
abbrev pub limits_of : Scope → RateLimit.Request → RateLimit.Limits
limits_of model_scope q = elim q.model_quota [ none ↦ RateLimit.no_limits | some l ↦ l ]
limits_of workspace_scope q = elim q.workspace_rl [ none ↦ RateLimit.no_limits | some w ↦ w.limits ]
limits_of client_scope q = elim q.client_rl [ none ↦ RateLimit.no_limits | some l ↦ l ]
limits_of user_scope q = elim q.workspace_rl [
  | none ↦ RateLimit.no_limits
  | some w ↦ RateLimit.user_limits w
]

-- `active_limit`
abbrev pub limit_of : Kind → RateLimit.Limits → Option ℕ
limit_of rpm_kind l = l.rpm
limit_of tpm_kind l = l.tpm

-- The tokens that a context window is compared with; a value that is no number raises.
abbrev pub window_of : Json → Option ℕ
window_of (int (pos n)) = some n
window_of (int (negsuc n)) = some 0
window_of (float (pos n)) = some (n / 1_000_000)
window_of (float (negsuc n)) = some 0
window_of (bool b) = some (if b then 1 else 0)
window_of _ = none

-- `max(1.0, min(float(to_hdr), ceiling))`, in seconds.
abbrev pub clamped : ℕ → Option ℤ → Option ℕ
clamped ceiling none = none
clamped ceiling (some (pos n)) = some (max 1 (min n ceiling))
clamped ceiling (some (negsuc n)) = some 1

abbrev pub request_timeout : (String → Option ℤ) → ℕ → Option String → Option ℕ
request_timeout float_seconds ceiling none = none
request_timeout float_seconds ceiling (some s) =
    if s == "" then none else clamped ceiling (float_seconds s)

-- What the guardrails read of a message, and the messages with what they made of it.
abbrev pub for_guardrails : List Message → List Guardrails.Message
for_guardrails [] = []
for_guardrails (m ∷ ms) = record { content = m.content; rest = end } ∷ for_guardrails ms

abbrev pub with_contents : List Guardrails.Message → List Message → List Message
with_contents [] ms = ms
with_contents (r ∷ rs) [] = []
with_contents (r ∷ rs) (m ∷ ms) = record m { content = r.content } ∷ with_contents rs ms

-- The events of an outcome's findings.
abbrev pub decisions : Attribution → String → String → String → List Guardrails.Finding → List Event
decisions who rule action stage [] = []
decisions who rule action stage (f ∷ fs) =
    guardrail_decision who rule f.detector action stage ∷ decisions who rule action stage fs
