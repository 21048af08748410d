-- ===== src/Budgets/Check.antt =====
-- gateway/core/budgets.py: the alerts of a check, and check_budget.
use agnos_proxy_oss.Base.{
  ℕ, zero, suc, ◌+◌, ◌*◌, String, Bool, false, Option, none, some, List, [], ◌∷◌, ◌++◌, ◌&&◌, leb,
  ltb, if◌then◌else◌, Eq, string_eq, option_eq, pair_eq, nat_eq, truthy,
}
use agnos_proxy_oss.Base.Dict.{Dict, lookup, insert}
use agnos_proxy_oss.Budgets.{
  BudgetDecision, CacheKey, Ledger, RequestLog, Scope, Spends, alert_window, allowed, cache_key_eq,
  client, delta_key_eq, scope_code, user, workspace,
}
use agnos_proxy_oss.Budgets.Totals.{spend}
use agnos_proxy_oss.Budgets.Enforce.{Caps, cap_set, cap_value, enforce, nothing_configured}

-- An alert that was fired: the target, the scope, the threshold, the spend and the cap.
abbrev pub Alert : Type 0
Alert = String × Scope × ℕ × ℕ × ℕ

abbrev pub AlertKey : Type 0
AlertKey = (String × ℕ) × ℕ

instance abbrev pub alert_key_eq : Eq AlertKey
alert_key_eq = pair_eq

-- `_ALERTED`
abbrev pub Alerted : Type 0
Alerted = Dict AlertKey ℕ

-- `_ALERTED.get(k, 0) > now`
unfoldable pub recently : AlertKey → ℕ → Alerted → Bool
unfolding lookup
recently k now d = elim (lookup k d) [ none ↦ false | some until ↦ ltb now until ]

-- One threshold that is met: the alert, unless it was fired within the window.
unfoldable pub alert_at : String → Scope → ℕ → ℕ → ℕ → ℕ → Alerted → List Alert × Alerted
unfolding recently insert
alert_at target scope threshold spent cap now d =
    let k : AlertKey = ((target, scope_code scope), threshold) in
    if recently k now d
    then ([], d)
    else ((target, scope, threshold, spent, cap) ∷ [], insert k (now + alert_window) d)

-- `_maybe_alert`
unfoldable pub maybe_alert : String → Scope → ℕ → ℕ → ℕ → Alerted → List Alert × Alerted
unfolding alert_at
maybe_alert target scope spent zero now d = ([], d)
maybe_alert target scope spent (suc cap) now d =
    if leb (100 * suc cap) (spent * 100)
    then alert_at target scope 100 spent (suc cap) now d
    else if leb (80 * suc cap) (spent * 100)
    then alert_at target scope 80 spent (suc cap) now d
    else ([], d)

-- `client_id or workspace_id`
abbrev pub alert_target : Option String → String → String
alert_target none workspace_id = workspace_id
alert_target (some c) workspace_id = if truthy (some c) then c else workspace_id

-- The three calls of `_maybe_alert`.
unfoldable pub alerts :
    Option String → String → Option String → Caps → Spends → ℕ → Alerted → List Alert × Alerted
unfolding maybe_alert
alerts client_id workspace_id user_id c s now d =
    let (a1, d1) =
      if cap_set c.client_cap
      then maybe_alert (alert_target client_id workspace_id) client s.client_spend
          (cap_value c.client_cap) now d
      else ([], d) in
    let (a2, d2) =
      if cap_set c.ws_cap
      then maybe_alert workspace_id workspace s.workspace_spend (cap_value c.ws_cap) now d1
      else ([], d1) in
    let (a3, d3) =
      if cap_set c.user_cap && truthy user_id
      then maybe_alert workspace_id user s.user_spend (cap_value c.user_cap) now d2
      else ([], d2) in
    (a1 ++ a2 ++ a3, d3)

-- A check: who asks, and what the workspace and its client have configured.
pub record Check : Type 0 where
  pub client_id : Option String
  pub workspace_id : String
  pub user_id : Option String
  pub caps : Caps

-- The key of `_CACHE` that a check reads.
abbrev pub check_key : Check → CacheKey
check_key q = (
  (q.client_id, q.workspace_id),
  (q.user_id, elim q.caps.pm_match [ none ↦ none | some (substr, cap) ↦ some substr ]),
)

-- `check_budget`, from the caps on: the decision, the alerts, and the dictionaries after it.
unfoldable pub check_budget :
    Check
    → ℕ
    → Option (List RequestLog)
    → ℕ
    → ℕ
    → Ledger × Alerted
    → BudgetDecision × List Alert × Ledger × Alerted
unfolding spend alerts enforce
check_budget q cutoff db now after (l, d) =
    let (s, l') = spend (check_key q) cutoff db now after l in
    let (fired, d') = alerts q.client_id q.workspace_id q.user_id q.caps s after d in
    if nothing_configured q.caps
    then (allowed, [], l, d)
    else (enforce q.user_id q.caps s, fired, l', d')
