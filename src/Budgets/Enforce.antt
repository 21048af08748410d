-- ===== src/Budgets/Enforce.antt =====
-- gateway/core/budgets.py: the caps that apply to a request, and the test of its spends against them.
use agnos_proxy_oss.Base.{
  ℕ, String, Bool, true, false, Option, none, some, [], ◌∷◌, ◌&&◌, ◌||◌, not, leb, eqb,
  if◌then◌else◌, string_eq, option_eq, pair_eq, nat_eq, truthy,
}
use agnos_proxy_oss.Base.Dict.{Dict}
use agnos_proxy_oss.Base.Text.{text, lower, occurs}
use agnos_proxy_oss.Budgets.{
  BudgetDecision, Budgets, Spends, allowed, cache_key_eq, client, delta_key_eq, per_model, refused,
  user, workspace,
}

-- `_per_model_match` for a model that is not empty.
unfoldable pub per_model_match : Dict String (Option ℕ) → String → Option (String × ℕ)
per_model_match [] model_id = none
per_model_match ((substr, cap) ∷ d) model_id =
    let rest = per_model_match d model_id in
    if truthy (some substr) && occurs (lower (text substr)) (lower (text model_id))
    then elim cap [ none ↦ rest | some c ↦ some (substr, c) ]
    else rest

abbrev pub string_of : Option String → String
string_of none = ""
string_of (some s) = s

-- The caps that apply to a request: `client_cap`, `ws_cap`, `user_cap` and `pm_match`.
pub record Caps : Type 0 where
  pub client_cap : Option ℕ
  pub ws_cap : Option ℕ
  pub user_cap : Option ℕ
  pub pm_match : Option (String × ℕ)

-- `client_budgets` is `none` for a client that is not stored, or an empty blob.
unfoldable pub caps_of : Option Budgets → Option Budgets → Option String → Caps
unfolding per_model_match
caps_of client_budgets ws_budgets model_id =
    let ws_user_cap : Option ℕ = elim ws_budgets [ none ↦ none | some b ↦ b.user_usd ] in
    let client_user_cap : Option ℕ = elim client_budgets [ none ↦ none | some b ↦ b.user_usd ] in
    record {
      client_cap = elim client_budgets [ none ↦ none | some b ↦ b.client_usd ];
      ws_cap = elim ws_budgets [ none ↦ none | some b ↦ b.workspace_usd ];
      user_cap = elim ws_user_cap [ none ↦ client_user_cap | some c ↦ some c ];
      pm_match = elim ws_budgets [
        | none ↦ none
        | some b ↦
            if truthy model_id then per_model_match b.per_model_usd (string_of model_id) else none
      ];
    }

-- The truth value of a cap: `None` and zero are false.
abbrev pub cap_set : Option ℕ → Bool
cap_set none = false
cap_set (some n) = not (eqb n 0)

abbrev pub is_some {ℓ} : {A : Type ℓ} → Option A → Bool
is_some none = false
is_some (some a) = true

-- `cap is not None and spend >= cap`
abbrev pub reached : Option ℕ → ℕ → Bool
reached none s = false
reached (some cap) s = leb cap s

abbrev pub cap_value : Option ℕ → ℕ
cap_value none = 0
cap_value (some n) = n

-- `not any([client_cap, ws_cap, user_cap, pm_match])`
abbrev pub nothing_configured : Caps → Bool
nothing_configured c =
    not (cap_set c.client_cap || cap_set c.ws_cap || cap_set c.user_cap || is_some c.pm_match)

-- The four tests in their order.
unfoldable pub enforce : Option String → Caps → Spends → BudgetDecision
enforce user_id c s =
    if reached c.client_cap s.client_spend
    then refused client (cap_value c.client_cap) s.client_spend
    else if reached c.ws_cap s.workspace_spend
    then refused workspace (cap_value c.ws_cap) s.workspace_spend
    else if reached c.user_cap s.user_spend && truthy user_id
    then refused user (cap_value c.user_cap) s.user_spend
    else elim c.pm_match [
      | none ↦ allowed
      | some (substr, cap) ↦
          if leb cap s.model_spend then refused per_model cap s.model_spend else allowed
    ]
