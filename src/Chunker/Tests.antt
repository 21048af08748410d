-- ===== src/Chunker/Tests.antt =====
-- A conversation of three messages that is cut to two.
use agnos_proxy_oss.Base.{
  ℕ, String, ◌+◌, ◌≤◌, ◌<◌, ◌≡◌, ◌⊎◌, List, [], ◌∷◌, ◌++◌, some, not, keep, arith,
}
use mathlib.Core.List.{reverse}
use agnos_proxy_oss.Guardrails.{plain}
use agnos_proxy_oss.Chunker.{
  Message, is_system, safety_margin, count_message_tokens, apply_truncation,
}
use agnos_proxy_oss.Chunker.Budget.{NoRoom, apply_truncation-over}

abbrev encode : String → ℕ
encode t = 10

abbrev said : String → Message
said role = record { role = some role; content = plain "hi"; tool_calls = [] }

abbrev talk : List Message
talk = said "system" ∷ said "user" ∷ said "user" ∷ []

too_long : 1060 < count_message_tokens encode talk + safety_margin
unfolding count_message_tokens
too_long = omega arith

apply_truncation-over_example :
    (older : List Message) × (kept : List Message) × (keep (λ m. not (is_system m)) talk
      ≡ reverse older ++ kept)
    × ((apply_truncation encode talk 1060).0 ≡ keep is_system talk ++ kept)
    × ((kept ≡ [])
        ⊎ (count_message_tokens encode (apply_truncation encode talk 1060).0 + safety_margin
            ≤ 1060))
    × NoRoom encode 1060 (count_message_tokens encode (apply_truncation encode talk 1060).0) older
apply_truncation-over_example = apply_truncation-over encode talk 1060 too_long
