-- ===== src/Guardrails.antt =====
-- gateway/core/guardrails/store.py, with the inline rules of guardrails/engine.py: which rules a request
-- is held against, what each of them finds, and what becomes of the request. The detectors, which
-- are regular expressions and services, the building of one from a profile and the CEL library are
-- the parameter `Library`; a call that raises is `none`. A sampling rate and a random number are
-- millionths. The tables are lists of rows, `none` a database that raises.
pub mod Rules
pub mod Evaluate
pub mod Scope
pub mod Outcome
mod Tests
use agnos_proxy_oss.Base.{
  ℕ, zero, suc, ◌+◌, String, ◌<>◌, Bool, true, false, Option, none, some, List, [], ◌∷◌, ◌++◌, ◌&&◌,
  ◌||◌, not, ltb, leb, eqb, if◌then◌else◌, ◌==◌, string_eq, option_eq, nat_eq, pair_eq, truthy,
  contains, is_empty,
}
use agnos_proxy_oss.Base.Dict.{Dict, lookup, insert}
use agnos_proxy_oss.Base.Json.{Fields}

pub record Finding : Type 0 where
  pub detector : String
  pub category : String
  pub excerpt : String

pub record Detector : Type 0 where
  pub scan : String → Option (List Finding)
  pub redact : String → Option (String × List Finding)

-- `content` of a message: null, a text, a list of blocks with the text of those that have one, or
-- something else by how it is written.
pub data Content : Type 0 where
  no_content : Content
  plain : String → Content
  blocks : List (Option String) → Content
  other : String → Content

pub record Message : Type 0 where
  pub content : Content
  pub rest : Fields

pub record GuardrailOutcome : Type 0 where
  pub blocked : Bool
  pub action : String
  pub rule : String
  pub findings : List Finding
  pub redacted_messages : Option (List Message)

-- `GuardrailOutcome(blocked=False)`
abbrev pub passed : GuardrailOutcome
passed = record {
  blocked = false;
  action = "audit";
  rule = "";
  findings = [];
  redacted_messages = none;
}

pub record CompiledRule : Type 0 where
  pub name : String
  pub action : String
  pub apply_to : String
  pub cel : String
  pub sampling_rate : ℕ
  pub detectors : List Detector
  pub scope : String
  pub workspace_id : Option String
  pub component : Option String
  pub explicit_action : Bool

pub record GuardrailRule : Type 0 where
  pub id : ℕ
  pub name : String
  pub enabled : Bool
  pub scope : String
  pub workspace_id : Option String
  pub component : Option String
  pub action : String
  pub apply_to : String
  pub cel_expression : String
  pub sampling_rate : ℕ
  pub profile_ids : List ℕ

pub record GuardrailProfile : Type 0 where
  pub id : ℕ
  pub enabled : Bool
  pub detector_type : String
  pub config : Fields

pub record Tables : Type 0 where
  pub rules : List GuardrailRule
  pub profiles : List GuardrailProfile

-- A rule of the inline configuration; what is missing is `none`.
pub record InlineRule : Type 0 where
  pub name : Option String
  pub cel : Option String
  pub apply_to : Option String
  pub detectors : List String
  pub action : Option String
  pub sampling_rate : Option ℕ

-- `guardrails` of a workspace.
pub record Config : Type 0 where
  pub pii_detection : Bool
  pub secrets_detection : Bool
  pub keywords : List String
  pub presidio : Bool
  pub mode : Option String
  pub rules : List InlineRule

pub record Library : Type 0 where
  pub regex_pii : Detector
  pub secrets : Detector
  pub keyword : List String → Detector
  -- None if the package is missing.
  pub presidio_detector : Option Detector
  -- `build_detector`; `none` is `NotConfigured`.
  pub build_detector : String → Fields → Option Detector
  -- `_cel_matches` on the request.
  pub cel_matches : String → Bool
  -- The numbers that `random` gives, in their order.
  pub random : ℕ → ℕ

abbrev pub is_mode : String → Bool
is_mode = contains ("audit" ∷ "redact" ∷ "block" ∷ [])

abbrev pub or_default : Option String → String → String
or_default none d = d
or_default (some s) d = s

-- A mode that is set and known.
abbrev pub is_set : Option String → Bool
is_set none = false
is_set (some m) = is_mode m

-- `_resolve_action`
unfoldable pub resolve_action : String → Bool → Option String → Option String → String
resolve_action rule_action explicit workspace_mode request_override =
    if is_set request_override
    then or_default request_override rule_action
    else if explicit
    then rule_action
    else if is_set workspace_mode
    then or_default workspace_mode rule_action
    else rule_action

-- `_rule_applies`
unfoldable pub rule_applies : String → Option String → Option String → String → Option String → Bool
rule_applies scope rule_ws rule_component workspace_id component =
    if scope == "global"
    then true
    else if scope == "workspace"
    then rule_ws == some workspace_id
    else if scope == "component"
    then rule_ws == some workspace_id && rule_component == component
    else false

unfoldable pub find_profile : ℕ → List GuardrailProfile → Option GuardrailProfile
find_profile id [] = none
find_profile id (p ∷ ps) = if eqb p.id id then some p else find_profile id ps

-- `" ".join(...)` of the texts of the blocks.
unfoldable pub join_blocks : List (Option String) → String
join_blocks [] = ""
join_blocks (none ∷ bs) = join_blocks bs
join_blocks (some t ∷ bs) = let rest = join_blocks bs in if is_last bs then t else t <> " " <> rest
  where
    is_last : List (Option String) → Bool
    is_last [] = true
    is_last (none ∷ cs) = is_last cs
    is_last (some u ∷ cs) = false

-- `_content_text`, which gateway/core/tokens.py has as well.
abbrev pub content_text : Content → String
content_text no_content = ""
content_text (plain t) = t
content_text (blocks bs) = join_blocks bs
content_text (other t) = t

-- The outcome of a rule, or that of the rest.
abbrev pub or_next : Option GuardrailOutcome → GuardrailOutcome → GuardrailOutcome
or_next none next = next
or_next (some o) next = o

-- `_CACHE`
abbrev pub Cache : Type 0
Cache = Dict (String × Option String) (List CompiledRule × ℕ)

abbrev pub ttl : ℕ
ttl = 15
