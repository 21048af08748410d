-- ===== src/Fallback.antt =====
-- `execute` of gateway/core/fallback.py: the targets in order, quick retries on one target, the
-- circuit breaker and the record of every attempt. The engine, the credential store, the clock
-- and the pause before a retry are the parameter `World`; the request body is part of its `chat`.
-- The 300 characters of a message that the log keeps are not counted off; that a message or a type
-- of some kinds makes the logging raise is modelled.
pub mod Execute
pub mod Rounds
pub mod Served
pub mod Skips
mod Tests
use agnos_proxy_oss.Base.{
  ℕ, zero, suc, ◌+◌, ◌-◌, ◌≤◌, String, ◌<>◌, Bool, true, false, Option, none, some, List, [], ◌∷◌,
  ◌++◌, ◌&&◌, ◌||◌, not, leb, ltb, eqb, if◌then◌else◌, string_eq, truthy, contains, nat_eq,
}
use agnos_proxy_oss.Base.Json.{
  Json, null, str, arr, obj, Fields, end, field, get, get_or_null, or_else,
}
use agnos_proxy_oss.Registry.{ResolvedTarget, Settings, hydrate_from_config, resolve_timeout_s}
use agnos_proxy_oss.Breaker.{CircuitBreaker, is_open, record_outcome}

-- `EngineResult` of gateway/engines/base.py, whose body is always an object.
pub record EngineResult : Type 0 where
  pub body : Fields
  pub status_code : ℕ

-- `EngineResult.ok`
unfoldable pub is_ok : EngineResult → Bool
unfolding get
is_ok r = eqb r.status_code 200 && elim (get "error" r.body) [ none ↦ true | some _ ↦ false ]

pub record Credential : Type 0 where
  pub credentials : Fields
  pub config : Fields
  pub bifrost_key_name : Option String

-- How the awaited call of the engine ends.
pub data Outcome : Type 0 where
  answered : EngineResult → Outcome
  timed_out : Outcome
  raised : String → Outcome

pub record World : Type 1 where
  pub State : Type 0
  pub now : State → ℕ
  pub credential : String → String → State → Option Credential × State
  pub chat : ResolvedTarget → ℕ → State → Outcome × State
  -- The sleep before the retry that follows an attempt.
  pub pause : ℕ → State → State
  -- How a number of seconds is written.
  pub digits : ℕ → String

abbrev pub error_body : String → String → Fields
error_body message type_ =
    field "error" (obj (field "message" (str message) (field "type" (str type_) end))) end

-- An entry of `attempts`.
pub data Attempt : Type 0 where
  skipped : String → String → Attempt
  failed : String → String → ℕ → ℕ → Json → Json → ℕ → Attempt

pub record FallbackResult : Type 0 where
  pub result : EngineResult
  pub target : ResolvedTarget
  pub attempt : ℕ
  pub provider_time : ℕ
  pub fallbacks_emitted : List (String × String × String)
  pub attempts : List Attempt
  pub effective_timeout_s : ℕ

abbrev pub retryable_types : List String
retryable_types = "upstream_error" ∷ "timeout" ∷ "rate_limit_exceeded" ∷ []

abbrev pub retryable_statuses : List ℕ
retryable_statuses = 429 ∷ 500 ∷ 502 ∷ 503 ∷ 504 ∷ 529 ∷ []

-- `_errbody`
abbrev pub error_fields : EngineResult → Fields
error_fields r = elim (get_or_null "error" r.body) [ obj e ↦ e | _ ↦ end ]

-- `err_type`
abbrev pub error_type : EngineResult → Json
error_type r = elim (get "type" (error_fields r)) [ none ↦ str "upstream_error" | some t ↦ t ]

abbrev pub error_message : EngineResult → Json
error_message r = or_else (get_or_null "message" (error_fields r)) (str "")

-- `err_msg[:300]` raises unless the message is a text or a list.
abbrev pub is_sliceable : Json → Bool
is_sliceable (str s) = true
is_sliceable (arr xs) = true
is_sliceable _ = false

-- `err_type in RETRYABLE` raises for a list and for an object.
abbrev pub is_hashable : Json → Bool
is_hashable (arr xs) = false
is_hashable (obj d) = false
is_hashable _ = true

unfoldable pub is_retryable : EngineResult → Bool
unfolding get
is_retryable r =
    elim (error_type r) [ str t ↦ contains retryable_types t | _ ↦ false ]
    || contains retryable_statuses r.status_code

-- The variables of `execute` that its loops change.
pub record Run (S : Type 0) : Type 0 where
  pub breaker : CircuitBreaker
  pub world : S
  pub fb_events : List (String × String × String)
  pub attempts : List Attempt
  pub last : Option EngineResult
  pub prev_provider : Option String
  -- The target of the last round, as the round left it: `targets[-1]` at the end.
  pub tried : Option ResolvedTarget
  pub eff_to : ℕ

-- What served a target: the result, the attempt and the time that it took.
abbrev pub Served : Type 0
Served = EngineResult × ℕ × ℕ

-- How the rounds on one target end, and the run over all of them: with what was served, without, or
-- with an exception that leaves `execute`.
pub data Ending (A : Type 0) : Type 0 where
  served : A → Ending A
  exhausted crashed : Ending A

abbrev pub text_of : Option String → String
text_of none = ""
text_of (some s) = s
