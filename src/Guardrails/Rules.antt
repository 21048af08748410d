-- ===== src/Guardrails/Rules.antt =====
-- gateway/core/guardrails/store.py: the rules that a request is held against: selected by id, stored in the
-- database, and inline in the workspace's configuration.
use agnos_proxy_oss.Base.{
  ℕ, ◌+◌, String, Bool, true, false, Option, none, some, List, [], ◌∷◌, ◌++◌, ◌&&◌, ◌||◌, not, ltb,
  if◌then◌else◌, ◌==◌, string_eq, option_eq, nat_eq, pair_eq, truthy, contains, is_empty,
}
use agnos_proxy_oss.Base.Dict.{Dict, lookup, insert}
use agnos_proxy_oss.Guardrails.{
  Cache, CompiledRule, Config, Detector, GuardrailProfile, GuardrailRule, InlineRule, Library,
  Tables, find_profile, or_default, rule_applies, ttl,
}

module _ (lib : Library) where
  -- The detectors of a rule's profiles; a disabled profile is left out where the code looks.
  unfoldable pub profile_detectors : Bool → List GuardrailProfile → List ℕ → List Detector
  unfolding find_profile
  profile_detectors only_enabled profiles [] = []
  profile_detectors only_enabled profiles (id ∷ ids) =
      let rest = profile_detectors only_enabled profiles ids in
      elim (find_profile id profiles) [
        | none ↦ rest
        | some p ↦
            if only_enabled && not p.enabled
            then rest
            else elim (lib.build_detector p.detector_type p.config) [
              | none ↦ rest
              | some d ↦ d ∷ rest
            ]
      ]

  abbrev pub compiled : Bool → List GuardrailProfile → GuardrailRule → CompiledRule
  compiled only_enabled profiles r = record {
    name = r.name;
    action = r.action;
    apply_to = r.apply_to;
    cel = r.cel_expression;
    sampling_rate = r.sampling_rate;
    detectors = profile_detectors only_enabled profiles r.profile_ids;
    scope = r.scope;
    workspace_id = r.workspace_id;
    component = r.component;
    explicit_action = true;
  }

  -- The condition of the query of `_db_rules`.
  abbrev pub is_selected : String → GuardrailRule → Bool
  is_selected workspace_id r =
      r.enabled && (r.scope == "global" || r.workspace_id == some workspace_id)

  -- The loop of `_db_rules` over the rows.
  unfoldable pub compile_rows :
      String → Option String → List GuardrailProfile → List GuardrailRule → List CompiledRule
  unfolding profile_detectors
  compile_rows workspace_id component profiles [] = []
  compile_rows workspace_id component profiles (r ∷ rs) =
      let rest = compile_rows workspace_id component profiles rs in
      if is_selected workspace_id r
        && not (r.scope == "component" && not (r.component == component))
      then compiled true profiles r ∷ rest
      else rest

  abbrev pub query_rules :
      String → Option String → ℕ → Option Tables → Cache → List CompiledRule × Cache
  query_rules workspace_id component now none c = ([], c)
  query_rules workspace_id component now (some t) c =
      let rules = compile_rows workspace_id component t.profiles t.rules in
      (rules, insert (workspace_id, component) (rules, now + ttl) c)

  -- `_db_rules`
  unfoldable pub db_rules :
      String → Option String → ℕ → Option Tables → Cache → List CompiledRule × Cache
  unfolding lookup insert compile_rows
  db_rules workspace_id component now db c =
      let queried = query_rules workspace_id component now db c in
      elim (lookup (workspace_id, component) c) [
        | none ↦ queried
        | some (rules, expiry) ↦ if ltb now expiry then (rules, c) else queried
      ]

  -- The loop of `_selected_rules`.
  unfoldable pub select_rows :
      List ℕ
      → String
      → Option String
      → List GuardrailProfile
      → List GuardrailRule
      → List CompiledRule
  unfolding profile_detectors rule_applies
  select_rows ids workspace_id component profiles [] = []
  select_rows ids workspace_id component profiles (r ∷ rs) =
      let rest = select_rows ids workspace_id component profiles rs in
      if contains ids r.id && rule_applies r.scope r.workspace_id r.component workspace_id component
      then compiled false profiles r ∷ rest
      else rest

  -- `_selected_rules`
  abbrev pub selected_rules : List ℕ → String → Option String → Option Tables → List CompiledRule
  selected_rules [] workspace_id component db = []
  selected_rules (id ∷ ids) workspace_id component none = []
  selected_rules (id ∷ ids) workspace_id component (some t) =
      select_rows (id ∷ ids) workspace_id component t.profiles t.rules

  -- `_detectors_for`
  abbrev pub detectors_for : Config → Dict String Detector
  detectors_for g =
      (if g.pii_detection then ("regex_pii", lib.regex_pii) ∷ [] else [])
      ++ (if g.secrets_detection then ("secrets", lib.secrets) ∷ [] else [])
      ++ (if is_empty g.keywords then [] else ("keyword", lib.keyword g.keywords) ∷ [])
      ++ (if g.presidio
          then elim lib.presidio_detector [ none ↦ [] | some d ↦ ("presidio", d) ∷ [] ]
          else [])

  abbrev pub names : Dict String Detector → List String
  names [] = []
  names ((n, d) ∷ ds) = n ∷ names ds

  -- `_rules`
  abbrev pub rules_of : Config → List InlineRule
  rules_of g =
      if is_empty g.rules
      then if is_empty (detectors_for g)
        then []
        else record {
          name = some "default";
          cel = some "true";
          apply_to = some "input";
          detectors = names (detectors_for g);
          action = some (or_default g.mode "block");
          sampling_rate = none;
        }
          ∷ []
      else g.rules

  unfoldable pub named_detectors : Dict String Detector → List String → List Detector
  unfolding lookup
  named_detectors ds [] = []
  named_detectors ds (n ∷ ns) =
      let rest = named_detectors ds ns in elim (lookup n ds) [ none ↦ rest | some d ↦ d ∷ rest ]

  abbrev pub full_rate : ℕ
  full_rate = 1000000

  -- `mode_override or rule.get("action", "block")`
  abbrev pub inline_action : Option String → InlineRule → String
  inline_action override r =
      if truthy override then or_default override "" else or_default r.action "block"

  abbrev pub inline_rule : Dict String Detector → Option String → InlineRule → CompiledRule
  inline_rule ds override r = record {
    name = or_default r.name "default";
    action = inline_action override r;
    apply_to = or_default r.apply_to "input";
    cel = or_default r.cel "true";
    sampling_rate = elim r.sampling_rate [ none ↦ full_rate | some n ↦ n ];
    detectors = named_detectors ds r.detectors;
    scope = "global";
    workspace_id = none;
    component = none;
    explicit_action = false;
  }

  abbrev pub inline_all : Dict String Detector → Option String → List InlineRule → List CompiledRule
  inline_all ds override [] = []
  inline_all ds override (r ∷ rs) = inline_rule ds override r ∷ inline_all ds override rs

  -- `_inline_rules`
  unfoldable pub inline_rules : Config → Option String → List CompiledRule
  unfolding named_detectors
  inline_rules g override = inline_all (detectors_for g) override (rules_of g)
