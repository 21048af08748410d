-- ===== src/Guardrails/Outcome.antt =====
-- Which rule decides, and when a request is blocked.
use agnos_proxy_oss.Base.{
  ℕ, ◌≡◌, refl, String, Bool, true, false, Option, none, some, List, [], ◌∷◌, ◌||◌, not,
  if◌then◌else◌, ◌==◌, string_eq, is_empty, ==_iff, ap, All, ◌∙◌, arith, Bool-cases, inl, inr, keep,
  ⊤, ◌⊎◌,
}
use agnos_proxy_oss.Guardrails.{
  Cache, CompiledRule, Config, Content, Detector, GuardrailOutcome, Library, Message, Tables,
  blocks, no_content, or_next, other, passed, plain, resolve_action,
}
use agnos_proxy_oss.Guardrails.Evaluate.{
  act, eval_redact, evaluate_input, evaluate_rules, input_rules, is_for, redact_content,
  sampled_out,
}

abbrev pub is_plain : Content → Bool
is_plain (plain t) = true
is_plain no_content = false
is_plain (blocks bs) = false
is_plain (other t) = false

or_next-unblocked :
    (x : Option GuardrailOutcome) (next : GuardrailOutcome)
    → ((o : GuardrailOutcome) → x ≡ some o → o.blocked ≡ false)
    → next.blocked ≡ false
    → (or_next x next).blocked ≡ false
or_next-unblocked none next h k = k
or_next-unblocked (some o) next h k = h o refl

redact_content-unread :
    (lib : Library) (ds : List Detector) (c : Content)
    → is_plain c ≡ false
    → redact_content lib ds c ≡ (c, [], false)
redact_content-unread lib ds (plain t) h = ground arith
redact_content-unread lib ds no_content h = refl
redact_content-unread lib ds (blocks bs) h = refl
redact_content-unread lib ds (other t) h = refl

module _ (lib : Library) (mode override : Option String) (ms : List Message) where
  -- What a rule that applies makes of the request.
  abbrev pub outcome_of : CompiledRule → Option GuardrailOutcome
  outcome_of r =
      act lib r.name (resolve_action r.action r.explicit_action mode override) ms r.detectors

  act-blocked :
      (name action : String) (ds : List Detector) (o : GuardrailOutcome)
      → act lib name action ms ds ≡ some o
      → (o.rule ≡ name)
        × (o.action ≡ action)
        × (o.blocked ≡ (action == "block"))
        × (is_empty o.findings ≡ false)
  act-blocked name action ds o h = elim (Bool-cases (action == "redact")) [
    | inr differs ↦ ground (arith, rw differs at h)
    | inl redact ↦
        let same : action ≡ "redact" = (==_iff action "redact").0 redact in
        let unblocked : (action == "block") ≡ false = rw same refl in ground (arith, rw redact at h)
  ]

  -- The rules of a request that come to their detectors, from the n-th draw on: for the input,
  -- not left out by their rate, with a condition that holds and some detector.
  abbrev pub considered : List CompiledRule → ℕ → List CompiledRule
  considered [] n = []
  considered (r ∷ rs) n =
      let (out, n') = sampled_out lib r.sampling_rate n in
      if not (is_for lib "input" r.apply_to)
      then considered rs n
      else if out || not (lib.cel_matches r.cel) || is_empty r.detectors
      then considered rs n'
      else r ∷ considered rs n'

  -- The outcome of the first rule that has one.
  abbrev pub first_outcome : List CompiledRule → GuardrailOutcome
  first_outcome [] = passed
  first_outcome (r ∷ rs) = or_next (outcome_of r) (first_outcome rs)

  evaluate_rules-eq-first_outcome :
      (rs : List CompiledRule) (n : ℕ)
      → evaluate_rules lib mode override ms rs n ≡ first_outcome (considered rs n)
  unfolding evaluate_rules
  evaluate_rules-eq-first_outcome [] n = refl
  evaluate_rules-eq-first_outcome (r ∷ rs) n =
      let n' = (sampled_out lib r.sampling_rate n).1 in
      let out = (sampled_out lib r.sampling_rate n).0 in
      let skipped = evaluate_rules-eq-first_outcome rs n in
      let next = evaluate_rules-eq-first_outcome rs n' in
      elim (Bool-cases (is_for lib "input" r.apply_to)) [
        | inr output ↦ rw output skipped
        | inl input ↦
            elim (Bool-cases (out || not (lib.cel_matches r.cel) || is_empty r.detectors)) [
              | inl passed_over ↦ rw (input, passed_over) next
              | inr held ↦ rw (input, held) (ap (or_next (outcome_of r)) next)
            ]
      ]

  -- No rule that comes to its detectors blocks, by the action that is resolved for it.
  abbrev pub NoneBlocks : List CompiledRule → Type 0
  NoneBlocks =
      All (λ r. (resolve_action r.action r.explicit_action mode override == "block") ≡ false)

  first_outcome-unblocked :
      (rs : List CompiledRule) → NoneBlocks rs → (first_outcome rs).blocked ≡ false
  first_outcome-unblocked [] h = refl
  first_outcome-unblocked (r ∷ rs) (h, hs) =
      or_next-unblocked (outcome_of r) (first_outcome rs)
        (λ o found.
          let (name, action, blocked, some_findings) =
            act-blocked r.name (resolve_action r.action r.explicit_action mode override) r.detectors
              o found in
          blocked ∙ h)
        (first_outcome-unblocked rs hs)

-- A request's outcome is that of the first rule, among the selected, the stored and the inline rules
-- in this order that come to their detectors, that finds something, and a pass if there is none.
pub evaluate_input-eq-first_outcome :
    (lib : Library) (g : Config) (ms : List Message) (ids : List ℕ) (override : Option String)
    (workspace_id : String) (component : Option String) (now : ℕ) (db : Option Tables) (c : Cache)
    → let rules = (input_rules lib g ids override workspace_id component now db c).0 in
      (evaluate_input lib g ms ids override workspace_id component now db c).0
      ≡ first_outcome lib g.mode override ms (considered lib g.mode override ms rules 0)
unfolding evaluate_input
evaluate_input-eq-first_outcome lib g ms ids override workspace_id component now db c =
    let rules = (input_rules lib g ids override workspace_id component now db c).0 in
    evaluate_rules-eq-first_outcome lib g.mode override ms rules 0

-- A request is blocked only by a rule whose resolved action is to block: if there is none among the
-- rules that come to their detectors, it is not blocked.
pub evaluate_input-NoneBlocks :
    (lib : Library) (g : Config) (ms : List Message) (ids : List ℕ) (override : Option String)
    (workspace_id : String) (component : Option String) (now : ℕ) (db : Option Tables) (c : Cache)
    → (let rules = (input_rules lib g ids override workspace_id component now db c).0 in
        NoneBlocks lib g.mode override ms (considered lib g.mode override ms rules 0))
    → (evaluate_input lib g ms ids override workspace_id component now db c).0.blocked ≡ false
evaluate_input-NoneBlocks lib g ms ids override workspace_id component now db c h =
    let rules = (input_rules lib g ids override workspace_id component now db c).0 in
    rw (evaluate_input-eq-first_outcome lib g ms ids override workspace_id component now db c)
      (first_outcome-unblocked lib g.mode override ms (considered lib g.mode override ms rules 0) h)

AllAudit :
    (lib : Library) (mode : Option String) (ms : List Message) (rs : List CompiledRule)
    → NoneBlocks lib mode (some "audit") ms rs
unfolding resolve_action
AllAudit lib mode ms [] = tt
AllAudit lib mode ms (r ∷ rs) = (refl, AllAudit lib mode ms rs)

-- A request whose mode is audit is never blocked.
pub evaluate_input_audit :
    (lib : Library) (g : Config) (ms : List Message) (ids : List ℕ) (workspace_id : String)
    (component : Option String) (now : ℕ) (db : Option Tables) (c : Cache)
    → (evaluate_input lib g ms ids (some "audit") workspace_id component now db c).0.blocked ≡ false
evaluate_input_audit lib g ms ids workspace_id component now db c =
    let override : Option String = some "audit" in
    let rules = (input_rules lib g ids override workspace_id component now db c).0 in
    evaluate_input-NoneBlocks lib g ms ids override workspace_id component now db c
      (AllAudit lib g.mode ms (considered lib g.mode override ms rules 0))

-- The messages whose content is a text.
abbrev pub plain_only : List Message → List Message
plain_only = keep (λ m. is_plain m.content)

-- The messages of two lists, one by one: those whose content is no text are the same.
abbrev pub SameUnread : List Message → List Message → Type 0
SameUnread [] [] = ⊤
SameUnread [] (n ∷ ns) = ⊥
SameUnread (m ∷ ms) [] = ⊥
SameUnread (m ∷ ms) (n ∷ ns) = ((is_plain m.content ≡ true) ⊎ (n ≡ m)) × SameUnread ms ns

-- A redaction of any conversation leaves every message whose content is a list of blocks, null or no
-- text as it was and where it was, even if a scan would find something in it; and its findings and
-- whether it changed anything are those of the conversation without these messages.
pub eval_redact-unread :
    (lib : Library) (ms : List Message) (ds : List Detector)
    → SameUnread ms (eval_redact lib ms ds).0
      × ((eval_redact lib ms ds).1 ≡ (eval_redact lib (plain_only ms) ds).1)
      × ((eval_redact lib ms ds).2 ≡ (eval_redact lib (plain_only ms) ds).2)
unfolding eval_redact
eval_redact-unread lib [] ds = (tt, refl, refl)
eval_redact-unread lib (m ∷ ms) ds =
    let (same, findings, changed) = eval_redact-unread lib ms ds in
    elim (Bool-cases (is_plain m.content)) [
      | inl read ↦ rw (read, findings, changed) ((inl refl, same), refl, refl)
      | inr unread ↦
          rw (unread, redact_content-unread lib ds m.content unread, findings, changed)
            ((inr refl, same), refl, refl)
    ]
