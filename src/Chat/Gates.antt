-- ===== src/Chat/Gates.antt =====
-- gateway/routes/chat.py: the stages from the choice of a target to that of an engine: eligibility, limits,
-- budgets, guardrails and truncation; and all stages up to there in their order.
use agnos_proxy_oss.Base.{
  ℕ, String, Bool, true, false, Option, none, some, List, [], ◌∷◌, ◌++◌, ◌||◌, if◌then◌else◌,
  is_empty, string_eq, ⊤, truthy, ◌==◌, nat_eq, list_eq,
}
use agnos_proxy_oss.Base.Dict.{lookup}
use agnos_proxy_oss.Base.Text.{text, lower}
use agnos_proxy_oss.Catalog.{is_eligible}
use agnos_proxy_oss.RateLimit
use agnos_proxy_oss.RateLimit.{Kind, Verdict}
use agnos_proxy_oss.RedisLimit.{enforce_multi_scope}
use agnos_proxy_oss.Budgets
use agnos_proxy_oss.Budgets.Enforce.{caps_of}
use agnos_proxy_oss.Budgets.Check.{check_budget}
use agnos_proxy_oss.Budgets.Check as BudgetCheck
use agnos_proxy_oss.Guardrails
use agnos_proxy_oss.Guardrails.Evaluate.{evaluate_input}
use agnos_proxy_oss.Chunker.{Message, apply_truncation}
use agnos_proxy_oss.Engines.{default_engine}
use agnos_proxy_oss.Chat.{
  Request, header, request_error, rate_limited, budget_limited, scope_header, Externals, Process,
  Surroundings, Stage, go, stop, refused, escaped, Step, emit, ◌>>=◌,
}
use agnos_proxy_oss.Chat.Parts.{
  messages_of, Routed, selected_ids, rate_limit_headers, limits_of, limit_of, window_of,
  for_guardrails, with_contents, decisions,
}
use agnos_proxy_oss.Chat.Identity.{read_body, authenticate, require_headers, route}

module _ (X : Externals) where
  open X use {lib, settings, columns, server}

  abbrev pub eligible : Option Bool → Stage ⊤
  eligible none = stop escaped
  eligible (some true) = go tt
  eligible (some false) = stop (refused 403 "model_disabled" [])

  -- 4. Model eligibility.
  unfoldable pub check_eligible : Surroundings → Routed → Step (Process X) ⊤
  unfolding is_eligible
  check_eligible s r g =
      let (answer, c) =
        is_eligible r.target.provider r.target.model_id s.catalog_now s.catalog_rows g.catalog in
      (eligible answer, record g { catalog = c })

  abbrev pub limit_request : Routed → Option RateLimit.Limits → RateLimit.Request
  limit_request r client_rl = record {
    client_id = r.who.client_id;
    workspace_id = r.who.workspace_id;
    user_id = r.who.user_id;
    alias = r.who.alias;
    client_rl = client_rl;
    workspace_rl = (columns r.context).rate_limits;
    model_quota = lookup r.who.alias (columns r.context).quotas;
    est_tokens = r.est_tokens;
  }

  abbrev pub limited : Routed → RateLimit.Request → ℕ → Verdict → Process X → Stage ⊤ × Process X
  limited r q reset RateLimit.allowed g = (go tt, g)
  limited r q reset (RateLimit.refused scope kind tenths) g =
      let limits = limits_of scope q in
      (
        stop (
            refused 429 "rate_limit_exceeded"
              (rate_limit_headers limits kind tenths reset ++ (scope_header scope ∷ []))),
        emit (rate_limited r.who scope kind (limit_of kind limits)) g,
      )

  -- The row of the client is read for a request that has one.
  abbrev pub client_row :
      Option String → Option (Option RateLimit.Limits) → Option (Option RateLimit.Limits)
  client_row client_id row = if truthy client_id then row else some none

  abbrev pub rate_stage :
      Surroundings → Routed → Option (Option RateLimit.Limits) → Process X → Stage ⊤ × Process X
  rate_stage s r none g = (stop escaped, g)
  rate_stage s r (some client_rl) g =
      let q = limit_request r client_rl in
      let (verdict, l, st) =
        enforce_multi_scope server settings.using_redis q s.wall s.monotonic g.limiter in
      limited r q s.reset verdict (record g { limiter = (l, st) })

  -- 5. Rate limit.
  unfoldable pub check_rate : Surroundings → Routed → Step (Process X) ⊤
  unfolding enforce_multi_scope rate_limit_headers
  check_rate s r g = rate_stage s r (client_row r.who.client_id s.client_limits) g

  -- The check of the budget that the handler asks for.
  abbrev pub budget_request : Surroundings → Routed → BudgetCheck.Check
  budget_request s r = record {
    client_id = r.who.client_id;
    workspace_id = r.who.workspace_id;
    user_id = r.who.user_id;
    caps = caps_of s.client_budgets (columns r.context).budgets (some r.target.model_id);
  }

  abbrev pub charged : Routed → Budgets.BudgetDecision → Process X → Stage ⊤ × Process X
  charged r Budgets.allowed g = (go tt, g)
  charged r (Budgets.refused scope cap spent) g =
      (stop (refused 402 "budget_exceeded" []), emit (budget_limited r.who scope cap spent) g)

  -- 6. Budget.
  unfoldable pub check_spend : Surroundings → Routed → Step (Process X) ⊤
  unfolding check_budget caps_of
  check_spend s r g =
      let (decision, fired, ledger, alerted) =
        check_budget (budget_request s r) s.budget_cutoff s.request_log s.budget_now s.budget_after
          g.ledger in
      charged r decision (record g { ledger = (ledger, alerted) })

  abbrev pub redacted_body : Routed → Option (List Guardrails.Message) → Routed
  redacted_body r none = r
  redacted_body r (some ms) = record r {
    body = record r.body { messages = some (with_contents ms (messages_of r.body)) };
    redacted = true;
  }

  -- What the handler does with the outcome of the guardrails.
  unfoldable pub judged :
      Routed → Guardrails.GuardrailOutcome → Process X → Stage Routed × Process X
  unfolding default_engine
  judged r o g =
      let g' : Process X = record g {
        events = g.events ++ decisions r.who o.rule o.action "input" o.findings;
      } in
      let (e, slot) = default_engine settings.engine g.engine in
      if is_empty o.findings
      then (go r, g)
      else if o.blocked
      then (
        stop (refused 422 "guardrail_violation" []),
        emit (request_error r.who r.target.provider e "guardrail_violation" 422 r.est_tokens)
            (record g' { engine = slot }),
      )
      else if o.action == "redact"
      then (go (redacted_body r o.redacted_messages), g')
      else (go r, g')

  abbrev pub screened :
      Request → Surroundings → Routed → Option (List ℕ) → Process X → Stage Routed × Process X
  screened req s r none g = (stop escaped, g)
  screened req s r (some ids) g =
      let (outcome, c) =
        evaluate_input lib.guardrails (columns r.context).guardrails
          (for_guardrails (messages_of r.body)) ids (header "x-gateway-guardrail-mode" req)
          r.who.workspace_id r.who.component s.guardrails_now s.guardrail_tables g.rules in
      judged r outcome (record g { rules = c })

  -- 7. Guardrails on the input.
  unfoldable pub screen : Request → Surroundings → Routed → Step (Process X) Routed
  unfolding header evaluate_input judged
  screen req s r g = screened req s r (selected_ids (header "x-gateway-guardrail-ids" req)) g

  abbrev pub wants_truncation : Request → Routed → Bool
  wants_truncation req r =
      elim (header "x-gateway-auto-truncate" req) [
        | none ↦ false
        | some v ↦ lower (text v) == text "true"
      ]
      || (columns r.context).auto_truncate

  abbrev pub cut : Routed → Option (List Message) → Option ℕ → Stage Routed
  cut r none window = stop escaped
  cut r (some ms) none = stop escaped
  cut r (some ms) (some window) =
      let (kept, info) = apply_truncation lib.encode ms window in
      go (record r { body = record r.body { messages = some kept }; info = some info })

  -- The truncation.
  unfoldable pub truncate : Request → Routed → Step (Process X) Routed
  unfolding header apply_truncation
  truncate req r g =
      if wants_truncation req r
      then (cut r r.body.messages (window_of r.target.context_window), g)
      else (go r, g)

  -- The stages up to here, in their order.
  unfoldable pub admit : Request → Surroundings → Step (Process X) Routed
  unfolding authenticate require_headers route check_eligible check_rate check_spend screen truncate
  admit req s = do
    b ← read_body X req.body
    ws ← authenticate X req s
    _ ← require_headers X req s ws
    r ← route X req b ws
    _ ← check_eligible s r
    _ ← check_rate s r
    _ ← check_spend s r
    r' ← screen req s r
    truncate req r'
