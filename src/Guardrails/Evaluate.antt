-- ===== src/Guardrails/Evaluate.antt =====
-- gateway/core/guardrails/store.py: what the rules find in a request or an answer, and what becomes of it.
use agnos_proxy_oss.Base.{
  ℕ, suc, String, Bool, false, Option, none, some, List, [], ◌∷◌, ◌++◌, ◌||◌, not, ltb,
  if◌then◌else◌, ◌==◌, string_eq, option_eq, nat_eq, pair_eq, is_empty,
}
use agnos_proxy_oss.Guardrails.{
  Cache, CompiledRule, Config, Content, Detector, Finding, GuardrailOutcome, Library, Message,
  Tables, blocks, content_text, join_blocks, no_content, or_next, other, passed, plain,
  resolve_action,
}
use agnos_proxy_oss.Guardrails.Rules.{
  db_rules, full_rate, inline_rules, select_rows, selected_rules,
}

module _ (lib : Library) where
  -- The findings of the detectors on one text; a detector that raises finds nothing.
  unfoldable pub scan_all : List Detector → String → List Finding
  scan_all [] t = []
  scan_all (d ∷ ds) t =
      let rest = scan_all ds t in elim (d.scan t) [ none ↦ rest | some fs ↦ fs ++ rest ]

  -- `_eval_block_audit`
  unfoldable pub eval_block_audit : List Message → List Detector → List Finding
  unfolding scan_all join_blocks
  eval_block_audit [] ds = []
  eval_block_audit (m ∷ ms) ds = scan_all ds (content_text m.content) ++ eval_block_audit ms ds

  -- The text after every detector has redacted it in turn, and all that they found.
  unfoldable pub redact_all : List Detector → String → String × List Finding
  redact_all [] t = (t, [])
  redact_all (d ∷ ds) t =
      let kept = redact_all ds t in
      elim (d.redact t) [
        | none ↦ kept
        | some (u, fs) ↦ let (v, gs) = redact_all ds u in (v, fs ++ gs)
      ]

  -- Only a content that is a text is redacted.
  abbrev pub redact_content : List Detector → Content → Content × List Finding × Bool
  redact_content ds (plain t) = let (red, fs) = redact_all ds t in (plain red, fs, not (red == t))
  redact_content ds no_content = (no_content, [], false)
  redact_content ds (blocks bs) = (blocks bs, [], false)
  redact_content ds (other t) = (other t, [], false)

  abbrev pub redact_message : List Detector → Message → Message × List Finding × Bool
  redact_message ds m =
      let (content, fs, changed) = redact_content ds m.content in
      (record m { content = content }, fs, changed)

  -- `_eval_redact`: the new messages, the findings, and whether a text changed.
  unfoldable pub eval_redact : List Message → List Detector → List Message × List Finding × Bool
  unfolding redact_all
  eval_redact [] ds = ([], [], false)
  eval_redact (m ∷ ms) ds =
      let (m', fs, changed) = redact_message ds m in
      let (ms', gs, changed') = eval_redact ms ds in (m' ∷ ms', fs ++ gs, changed || changed')

  -- What one rule that applies makes of the request; `none` goes on to the next rule.
  abbrev pub act : String → String → List Message → List Detector → Option GuardrailOutcome
  act name action ms ds =
      let (ms', fs, changed) = eval_redact ms ds in
      let found = eval_block_audit ms ds in
      if action == "redact"
      then if is_empty fs
        then none
        else some (record {
          blocked = false;
          action = "redact";
          rule = name;
          findings = fs;
          redacted_messages = if changed then some ms' else none;
        })
      else if is_empty found
      then none
      else some (record {
        blocked = action == "block";
        action = action;
        rule = name;
        findings = found;
        redacted_messages = none;
      })

  -- A rule with a rate below one draws a number: whether it is left out, and the next draw.
  abbrev pub sampled_out : ℕ → ℕ → Bool × ℕ
  sampled_out rate n =
      if ltb rate (full_rate lib) then (ltb rate (lib.random n), suc n) else (false, n)

  abbrev pub is_for : String → String → Bool
  is_for direction apply_to = apply_to == direction || apply_to == "both"

  -- The loop of `evaluate_input`, from the n-th draw on.
  unfoldable pub evaluate_rules :
      Option String → Option String → List Message → List CompiledRule → ℕ → GuardrailOutcome
  unfolding resolve_action eval_redact eval_block_audit
  evaluate_rules mode override ms [] n = passed
  evaluate_rules mode override ms (r ∷ rs) n =
      let (out, n') = sampled_out r.sampling_rate n in
      let unsampled = evaluate_rules mode override ms rs n in
      let rest = evaluate_rules mode override ms rs n' in
      let action = resolve_action r.action r.explicit_action mode override in
      if not (is_for "input" r.apply_to)
      then unsampled
      else if out || not (lib.cel_matches r.cel) || is_empty r.detectors
      then rest
      else or_next (act r.name action ms r.detectors) rest

  -- The rules of `evaluate_input`, in their order: selected, stored, inline.
  abbrev pub input_rules :
      Config
      → List ℕ
      → Option String
      → String
      → Option String
      → ℕ
      → Option Tables
      → Cache
      → List CompiledRule × Cache
  input_rules g ids override workspace_id component now db c =
      let (stored, c') = db_rules lib workspace_id component now db c in
      (
        selected_rules lib ids workspace_id component db ++ stored ++ inline_rules lib g override,
        c',
      )

  -- `evaluate_input`
  unfoldable pub evaluate_input :
      Config
      → List Message
      → List ℕ
      → Option String
      → String
      → Option String
      → ℕ
      → Option Tables
      → Cache
      → GuardrailOutcome × Cache
  unfolding db_rules select_rows inline_rules evaluate_rules
  evaluate_input g ms ids override workspace_id component now db c =
      let (rules, c') = input_rules g ids override workspace_id component now db c in
      (evaluate_rules g.mode override ms rules 0, c')

  -- The scan of `evaluate_output`.
  unfoldable pub scan_output : String → List CompiledRule → List Finding
  unfolding scan_all
  scan_output t [] = []
  scan_output t (r ∷ rs) =
      if is_for "output" r.apply_to
      then scan_all r.detectors t ++ scan_output t rs
      else scan_output t rs

  -- `evaluate_output`
  unfoldable pub evaluate_output :
      Config → String → String → Option String → ℕ → Option Tables → Cache → List Finding × Cache
  unfolding db_rules inline_rules scan_output
  evaluate_output g t workspace_id component now db c =
      let (stored, c') = db_rules lib workspace_id component now db c in
      (scan_output t (inline_rules lib g none ++ stored), c')
