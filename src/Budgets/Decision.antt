-- ===== src/Budgets/Decision.antt =====
-- Which cap decides a check.
use agnos_proxy_oss.Base.{
  ℕ, ◌<◌, ◌≡◌, ◌↔◌, refl, Bool, true, false, String, Option, none, some, List, [], ◌∷◌, ◌++◌, arith,
  All, leb, if◌then◌else◌, truthy,
}
use agnos_proxy_oss.Budgets.{
  BudgetDecision, Ledger, RequestLog, Scope, Spends, allowed, client, per_model, refused, user,
  workspace,
}
use agnos_proxy_oss.Budgets.Enforce.{Caps, enforce, nothing_configured}
use agnos_proxy_oss.Budgets.Check.{Alerted, Check, check_budget, check_key}
use agnos_proxy_oss.Budgets.Totals.{spend}

-- A cap that is configured, with the spend that it is held against.
abbrev pub Level : Type 0
Level = Scope × ℕ × ℕ

abbrev pub level : Scope → Option ℕ → ℕ → List Level
level sc none s = []
level sc (some cap) s = (sc, cap, s) ∷ []

-- The configured caps from the tenant down to the model.
abbrev pub hierarchy : Option String → Caps → Spends → List Level
hierarchy user_id c s =
    level client c.client_cap s.client_spend
    ++ level workspace c.ws_cap s.workspace_spend
    ++ (if truthy user_id then level user c.user_cap s.user_spend else [])
    ++ elim c.pm_match [ none ↦ [] | some (substr, cap) ↦ level per_model (some cap) s.model_spend ]

abbrev pub first_over : List Level → BudgetDecision
first_over [] = allowed
first_over ((sc, cap, s) ∷ ls) = if leb cap s then refused sc cap s else first_over ls

pub enforce-eq-first_over :
    (user_id : Option String) (c : Caps) (s : Spends)
    → enforce user_id c s ≡ first_over (hierarchy user_id c s)
unfolding enforce
enforce-eq-first_over user_id c s = ground arith

abbrev pub is_allowed : BudgetDecision → Bool
is_allowed allowed = true
is_allowed (refused sc cap s) = false

pub first_over-allowed :
    (ls : List Level) → (is_allowed (first_over ls) ≡ true) ↔ All (λ l. l.2 < l.1) ls
first_over-allowed [] = ground arith
first_over-allowed ((sc, cap, s) ∷ ls) = ground (arith, first_over-allowed ls)

-- When a client, workspace or user cap other than zero or a model's cap is configured, the
-- decision is the first level of the hierarchy client, workspace, user, model whose spend has
-- reached its cap, and a check is allowed exactly when the spend of every configured level is
-- below its cap.
pub check_budget-eq-first_over :
    (q : Check) (cutoff : ℕ) (db : Option (List RequestLog)) (now after : ℕ) (l : Ledger)
    (d : Alerted)
    → nothing_configured q.caps ≡ false
    → let s = (spend (check_key q) cutoff db now after l).0 in
      let decision = (check_budget q cutoff db now after (l, d)).0 in
      (decision ≡ first_over (hierarchy q.user_id q.caps s))
      × ((is_allowed decision ≡ true) ↔ All (λ v. v.2 < v.1) (hierarchy q.user_id q.caps s))
unfolding check_budget
check_budget-eq-first_over q cutoff db now after l d h =
    let s = (spend (check_key q) cutoff db now after l).0 in
    rw (h, enforce-eq-first_over q.user_id q.caps s)
      (refl, first_over-allowed (hierarchy q.user_id q.caps s))
