-- ===== src/Guardrails/Tests.antt =====
-- Guardrails on a concrete workspace, with a detector that finds every text.
use agnos_proxy_oss.Base.{
  ◌≡◌, true, false, Option, some, none, List, [], ◌∷◌, All, string_eq, option_eq, pair_eq, arith,
}
use agnos_proxy_oss.Base.Dict.{lookup}
use agnos_proxy_oss.Base.Json.{end}
use agnos_proxy_oss.Guardrails.{
  CompiledRule, Config, Detector, Finding, GuardrailRule, Library, Message, Tables, blocks, plain,
}
use agnos_proxy_oss.Guardrails.Evaluate.{eval_redact, evaluate_input, input_rules}
use agnos_proxy_oss.Guardrails.Scope.{IsOwn, CacheOwn, input_rules-IsOwn}
use agnos_proxy_oss.Guardrails.Outcome.{
  considered, first_outcome, evaluate_input-eq-first_outcome, SameUnread, plain_only,
  eval_redact-unread,
}

abbrev finding : Finding
finding = record { detector = "any"; category = "text"; excerpt = "***" }

abbrev any_text : Detector
any_text = record { scan = λ t. some (finding ∷ []); redact = λ t. some ("", finding ∷ []) }

abbrev library : Library
library = record {
  regex_pii = any_text;
  secrets = any_text;
  keyword = λ ws. any_text;
  presidio_detector = none;
  build_detector = λ t c. some any_text;
  cel_matches = λ e. true;
  random = λ n. 0;
}

abbrev config : Config
config = record {
  pii_detection = true;
  secrets_detection = false;
  keywords = [];
  presidio = false;
  mode = some "block";
  rules = [];
}

abbrev foreign : GuardrailRule
foreign = record {
  id = 3;
  name = "foreign";
  enabled = true;
  scope = "workspace";
  workspace_id = some "other";
  component = none;
  action = "block";
  apply_to = "input";
  cel_expression = "true";
  sampling_rate = 1000000;
  profile_ids = [];
}

abbrev db : Option Tables
db = some (record { rules = foreign ∷ []; profiles = [] })

cache_own : CacheOwn library "w" none []
unfolding lookup
cache_own = λ k v h. ground arith

input_rules-IsOwn_example :
    All (IsOwn "w") (input_rules library config (3 ∷ []) none "w" none 5 db []).0
    × CacheOwn library "w" none (input_rules library config (3 ∷ []) none "w" none 5 db []).1
input_rules-IsOwn_example =
    input_rules-IsOwn library "w" none config (3 ∷ []) none 5 db [] cache_own

abbrev hello : List Message
hello = record { content = plain "hello"; rest = end } ∷ []

abbrev held : List CompiledRule
held =
    considered library (some "block") none hello
      (input_rules library config [] none "w" none 5 db []).0 0

evaluate_input-eq-first_outcome_example :
    (evaluate_input library config hello [] none "w" none 5 db []).0
    ≡ first_outcome library (some "block") none hello held
evaluate_input-eq-first_outcome_example =
    evaluate_input-eq-first_outcome library config hello [] none "w" none 5 db []

-- The rule that the configuration makes, in an audit mode.
abbrev audited : Config
audited = record config { mode = some "audit" }

-- A text, and the same text in a block.
abbrev mixed : List Message
mixed =
    record { content = plain "123-45-6789"; rest = end }
    ∷ record { content = blocks (some "123-45-6789" ∷ []); rest = end }
    ∷ []

eval_redact-unread_example :
    SameUnread mixed (eval_redact library mixed (any_text ∷ [])).0
    × ((eval_redact library mixed (any_text ∷ [])).1
        ≡ (eval_redact library (plain_only mixed) (any_text ∷ [])).1)
    × ((eval_redact library mixed (any_text ∷ [])).2
        ≡ (eval_redact library (plain_only mixed) (any_text ∷ [])).2)
eval_redact-unread_example = eval_redact-unread library mixed (any_text ∷ [])
