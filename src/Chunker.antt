-- ===== src/Chunker.antt =====
-- gateway/core/chunker.py and gateway/core/tokens.py: how a conversation is cut to the context window of
-- a model. The tokenizer is the parameter `encode`, the number of tokens of a text. The budget and what
-- remains of it may be negative in the source: here the tokens that are used are compared with them.
pub mod Budget
mod Tests
use agnos_proxy_oss.Base.{
  ℕ, zero, suc, ◌+◌, ◌-◌, String, Bool, true, false, Option, none, some, List, [], ◌∷◌, ◌++◌, not,
  leb, if◌then◌else◌, ◌==◌, string_eq, option_eq, keep, length,
}
use mathlib.Core.List.{reverse}
use agnos_proxy_oss.Guardrails.{Content, content_text}

-- A message: its role, its content and the names and arguments of its tool calls.
pub record Message : Type 0 where
  pub role : Option String
  pub content : Content
  pub tool_calls : List (String × String)

abbrev pub safety_margin : ℕ
safety_margin = 1024

pub record Info : Type 0 where
  pub truncated : Bool
  pub original_tokens : ℕ
  pub sent_tokens : ℕ
  pub dropped_messages : ℕ

abbrev pub is_system : Message → Bool
is_system m = m.role == some "system"

module _ (encode : String → ℕ) where
  abbrev pub call_tokens : List (String × String) → ℕ
  call_tokens [] = 0
  call_tokens ((name, arguments) ∷ cs) = encode name + encode arguments + call_tokens cs

  abbrev pub message_tokens : Message → ℕ
  message_tokens m = encode (content_text m.content) + 4 + call_tokens m.tool_calls

  -- `count_message_tokens`
  unfoldable pub count_message_tokens : List Message → ℕ
  count_message_tokens [] = 0
  count_message_tokens (m ∷ ms) = message_tokens m + count_message_tokens ms

  -- The loop over `reversed(other)`: what is kept, in front of what is kept already. `used` counts
  -- the system messages and those that are kept.
  unfoldable pub keep_last : ℕ → ℕ → List Message → List Message → List Message
  unfolding count_message_tokens
  keep_last window used [] kept = kept
  keep_last window used (m ∷ ms) kept =
      let c = count_message_tokens (m ∷ []) in
      let more = keep_last window (used + c) ms (m ∷ kept) in
      if leb (used + c + safety_margin) window then more else kept

  -- `apply_truncation`
  unfoldable pub apply_truncation : List Message → ℕ → List Message × Info
  unfolding count_message_tokens keep_last
  apply_truncation messages window =
      let original = count_message_tokens messages in
      let system = keep is_system messages in
      let others = keep (λ m. not (is_system m)) messages in
      let kept = keep_last window (count_message_tokens system) (reverse others) [] in
      let final = system ++ kept in
      if leb (original + safety_margin) window
      then (
        messages,
        record {
          truncated = false;
          original_tokens = original;
          sent_tokens = original;
          dropped_messages = 0;
        },
      )
      else (
        final,
        record {
          truncated = true;
          original_tokens = original;
          sent_tokens = count_message_tokens final;
          dropped_messages = length messages - length final;
        },
      )
