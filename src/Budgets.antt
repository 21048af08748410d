-- ===== src/Budgets.antt =====
-- gateway/core/budgets.py: the spending caps of a client, a workspace, a user and a model. Money is
-- a whole number of the smallest unit that is recorded, time a number of milliseconds; a budget
-- blob is one that admin_validation.py has let through, so a cap is a number that is not negative.
-- The SQL sums are taken over the list of the request log's rows; `none` stands for a database
-- that raises or misses the deadline. The model's part of a key has no SQL wildcard in it. The
-- texts of the messages and the webhook are left out.
pub mod Totals
pub mod Enforce
pub mod Check
pub mod Decision
pub mod Live
pub mod Alerts
mod Tests
use agnos_proxy_oss.Base.{
  ℕ, zero, suc, ◌+◌, ◌*◌, String, Bool, true, false, Option, none, some, List, [], ◌∷◌, ◌++◌, ◌&&◌,
  ◌||◌, not, leb, ltb, eqb, if◌then◌else◌, ◌==◌, Eq, string_eq, option_eq, pair_eq, nat_eq, truthy,
  keep, any, is_empty,
}
use agnos_proxy_oss.Base.Dict.{Dict, lookup, insert, keep_keys}
use agnos_proxy_oss.Base.Text.{Text, text, lower, occurs}

pub data Scope : Type 0 where
  client : Scope
  workspace : Scope
  user : Scope
  per_model : Scope

abbrev pub scope_code : Scope → ℕ
scope_code client = 0
scope_code workspace = 1
scope_code user = 2
scope_code per_model = 3

-- `BudgetDecision`; a refusal holds the scope, the cap and the spend.
pub data BudgetDecision : Type 0 where
  allowed : BudgetDecision
  refused : Scope → ℕ → ℕ → BudgetDecision

-- The keys of `_LIVE_DELTA` and of `_CACHE`.
abbrev pub DeltaKey : Type 0
DeltaKey = (ℕ × Option String) × (Option String × Option String)

abbrev pub CacheKey : Type 0
CacheKey = (Option String × String) × (Option String × Option String)

instance abbrev pub delta_key_eq : Eq DeltaKey
delta_key_eq = pair_eq

instance abbrev pub cache_key_eq : Eq CacheKey
cache_key_eq = pair_eq

pub record Spends : Type 0 where
  pub client_spend : ℕ
  pub workspace_spend : ℕ
  pub user_spend : ℕ
  pub model_spend : ℕ

-- The columns of `RequestLog` that the sums read.
pub record RequestLog : Type 0 where
  pub client_id : Option String
  pub workspace_id : String
  pub user_id : Option String
  pub provider_model_id : String
  pub timestamp : ℕ
  pub cost_usd : ℕ

-- The module's dictionaries.
pub record Ledger : Type 0 where
  pub cache : Dict CacheKey (Spends × ℕ)
  pub live_delta : Dict DeltaKey (List (ℕ × ℕ))

-- `budgets` of a workspace or a client. A cap of `per_model` that is no number is `none`.
pub record Budgets : Type 0 where
  pub client_usd : Option ℕ
  pub workspace_usd : Option ℕ
  pub user_usd : Option ℕ
  pub per_model_usd : Dict String (Option ℕ)

abbrev pub ttl : ℕ
ttl = 500

abbrev pub live_delta_ttl : ℕ
live_delta_ttl = 60000

abbrev pub alert_window : ℕ
alert_window = 3600000

abbrev pub total : List (ℕ × ℕ) → ℕ
total [] = 0
total ((c, e) ∷ l) = c + total l

-- `_LIVE_DELTA.get(key, [])`
abbrev pub entries : DeltaKey → Dict DeltaKey (List (ℕ × ℕ)) → List (ℕ × ℕ)
entries k d = elim (lookup k d) [ none ↦ [] | some l ↦ l ]

-- The entries that have not expired.
abbrev pub unexpired : ℕ → List (ℕ × ℕ) → List (ℕ × ℕ)
unexpired now = keep (λ e. ltb now e.1)

-- `_delta_for`
unfoldable pub delta_for : DeltaKey → ℕ → Ledger → ℕ × Ledger
unfolding lookup insert
delta_for key now l =
    let fresh = unexpired now (entries key l.live_delta) in
    (total fresh, record l { live_delta = insert key fresh l.live_delta })

abbrev pub client_key : Option String → DeltaKey
client_key client_id = ((scope_code client, client_id), (none, none))

abbrev pub workspace_key : String → DeltaKey
workspace_key workspace_id = ((scope_code workspace, some workspace_id), (none, none))

abbrev pub user_key : String → Option String → DeltaKey
user_key workspace_id user_id = ((scope_code user, some workspace_id), (user_id, none))

abbrev pub model_key : String → Option String → DeltaKey
model_key workspace_id model = ((scope_code per_model, some workspace_id), (none, model))

-- The condition of `invalidate_spend_cache` under which an entry is dropped.
abbrev pub overlaps : Option String → String → Option String → CacheKey → Bool
overlaps client_id workspace_id user_id ((cid, wid), (uid, model)) =
    (cid == client_id && wid == workspace_id) || (wid == workspace_id && uid == user_id)

unfoldable pub invalidate_spend_cache : Option String → String → Option String → Ledger → Ledger
unfolding keep_keys
invalidate_spend_cache client_id workspace_id user_id l = record l {
  cache = keep_keys (λ k. not (overlaps client_id workspace_id user_id k)) l.cache;
}

-- `_LIVE_DELTA.setdefault(k, []).append(entry)`
unfoldable pub append_delta :
    DeltaKey → ℕ × ℕ → Dict DeltaKey (List (ℕ × ℕ)) → Dict DeltaKey (List (ℕ × ℕ))
unfolding lookup insert
append_delta k entry d = insert k (entries k d ++ (entry ∷ [])) d

unfoldable pub add_live_spend :
    Option String → String → Option String → ℕ → Option String → ℕ → Ledger → Ledger
unfolding append_delta invalidate_spend_cache
add_live_spend client_id workspace_id user_id zero model now l = l
add_live_spend client_id workspace_id user_id (suc cost) model now l =
    let entry : ℕ × ℕ = (suc cost, now + live_delta_ttl) in
    let d = append_delta (client_key client_id) entry l.live_delta in
    let d = append_delta (workspace_key workspace_id) entry d in
    let d = append_delta (user_key workspace_id user_id) entry d in
    let d = if truthy model then append_delta (model_key workspace_id model) entry d else d in
    invalidate_spend_cache client_id workspace_id user_id (record l { live_delta = d })
