-- ===== src/Budgets/Totals.antt =====
-- gateway/core/budgets.py: what a client, a workspace, a user and a model have spent in the window.
use agnos_proxy_oss.Base.{
  ℕ, ◌+◌, String, Bool, false, Option, none, some, List, [], ◌∷◌, ◌&&◌, leb, ltb, if◌then◌else◌,
  ◌==◌, string_eq, option_eq, pair_eq, nat_eq, truthy,
}
use agnos_proxy_oss.Base.Dict.{lookup, insert}
use agnos_proxy_oss.Base.Text.{text, lower, occurs}
use agnos_proxy_oss.Budgets.{
  CacheKey, Ledger, RequestLog, Spends, cache_key_eq, client_key, delta_for, delta_key_eq,
  model_key, ttl, user_key, workspace_key,
}

-- The sum of the costs of the rows after the cutoff that meet a condition.
abbrev pub sum_cost : ℕ → (RequestLog → Bool) → List RequestLog → ℕ
sum_cost cutoff p [] = 0
sum_cost cutoff p (r ∷ rs) =
    if p r && leb cutoff r.timestamp
    then r.cost_usd + sum_cost cutoff p rs
    else sum_cost cutoff p rs

-- `ilike(f"%{s}%")`
abbrev pub ilike : Option String → String → Bool
ilike none m = false
ilike (some s) m = occurs (lower (text s)) (lower (text m))

-- `_query_spends`
unfoldable pub query_spends :
    Option String → String → Option String → Option String → ℕ → List RequestLog → Spends
query_spends client_id workspace_id user_id model cutoff rows = record {
  client_spend =
      if truthy client_id then sum_cost cutoff (λ r. r.client_id == client_id) rows else 0;
  workspace_spend = sum_cost cutoff (λ r. r.workspace_id == workspace_id) rows;
  user_spend =
      if truthy user_id
      then sum_cost cutoff (λ r. r.workspace_id == workspace_id && r.user_id == user_id) rows
      else 0;
  model_spend =
      if truthy model
      then sum_cost cutoff (λ r. r.workspace_id == workspace_id && ilike model r.provider_model_id)
          rows
      else 0;
}

abbrev pub no_spends : Spends
no_spends = record { client_spend = 0; workspace_spend = 0; user_spend = 0; model_spend = 0 }

-- The totals of the window, from the cache or from the database, and the cache after it. `now` is
-- the time before the query and `after` the time when it ends.
unfoldable pub base_spends :
    CacheKey → ℕ → Option (List RequestLog) → ℕ → ℕ → Ledger → Spends × Ledger
unfolding lookup insert query_spends
base_spends ((client_id, workspace_id), (user_id, model)) cutoff db now after l =
    let ck : CacheKey = ((client_id, workspace_id), (user_id, model)) in
    let queried : Spends = elim db [
      | none ↦ no_spends
      | some rows ↦ query_spends client_id workspace_id user_id model cutoff rows
    ] in
    let missed : Spends × Ledger =
      (queried, record l { cache = insert ck (queried, after + ttl) l.cache }) in
    elim (lookup ck l.cache) [
      | none ↦ missed
      | some (base, expiry) ↦ if ltb now expiry then (base, l) else missed
    ]

-- `_spend`
unfoldable pub spend : CacheKey → ℕ → Option (List RequestLog) → ℕ → ℕ → Ledger → Spends × Ledger
unfolding base_spends delta_for
spend ((client_id, workspace_id), (user_id, model)) cutoff db now after l =
    let (base, l0) =
      base_spends ((client_id, workspace_id), (user_id, model)) cutoff db now after l in
    let (c, l1) = delta_for (client_key client_id) after l0 in
    let (w, l2) = delta_for (workspace_key workspace_id) after l1 in
    let (u, l3) = delta_for (user_key workspace_id user_id) after l2 in
    let (m, l4) = delta_for (model_key workspace_id model) after l3 in
    let counted = truthy model in
    (
      record {
        client_spend = base.client_spend + c;
        workspace_spend = base.workspace_spend + w;
        user_spend = base.user_spend + u;
        model_spend = base.model_spend + (if counted then m else 0);
      },
      if counted then l4 else l3,
    )
