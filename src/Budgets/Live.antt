-- ===== src/Budgets/Live.antt =====
-- The spend of requests that have just ended.
use agnos_proxy_oss.Base.{
  ℕ, zero, suc, ◌+◌, ◌≤◌, ◌<◌, ◌≡◌, refl, Bool, true, false, String, Option, none, some, List, [],
  ◌∷◌, ◌++◌, arith, leb, if◌then◌else◌, nat_eq, string_eq, option_eq, ==_refl, ==_iff, truthy, not,
  ◌==◌, Bool-cases, inl, inr,
}
use agnos_proxy_oss.Base.Dict.{Dict, lookup, lookup-insert, lookup-keep_keys}
use agnos_proxy_oss.Budgets.{
  CacheKey, DeltaKey, Ledger, RequestLog, Spends, add_live_spend, append_delta, cache_key_eq,
  client_key, delta_for, delta_key_eq, entries, invalidate_spend_cache, live_delta_ttl, model_key,
  overlaps, total, unexpired, user_key, workspace_key,
}
use agnos_proxy_oss.Budgets.Totals.{base_spends, query_spends, spend, sum_cost}
use agnos_proxy_oss.Budgets.Enforce.{Caps, enforce, nothing_configured}
use agnos_proxy_oss.Budgets.Check.{Alerted, Check, check_budget, check_key}
use agnos_proxy_oss.Budgets.Decision.{is_allowed}

total-append :
    (now : ℕ) (xs ys : List (ℕ × ℕ))
    → total (unexpired now (xs ++ ys)) ≡ total (unexpired now xs) + total (unexpired now ys)
total-append now [] ys = omega arith
total-append now (x ∷ xs) ys = ground (arith, total-append now xs ys)

abbrev Deltas : Type 0
Deltas = Dict DeltaKey (List (ℕ × ℕ))

-- What a key counts for at a time.
abbrev pub live : DeltaKey → ℕ → Deltas → ℕ
live key now d = total (unexpired now (entries key d))

entries-append_delta :
    (j k : DeltaKey) (entry : ℕ × ℕ) (d : Deltas)
    → entries j (append_delta k entry d)
      ≡ (if j == k then entries j d ++ (entry ∷ []) else entries j d)
unfolding append_delta
entries-append_delta j k entry d =
    ground (arith, lookup-insert {K = DeltaKey} k j (entries k d ++ (entry ∷ [])) d, ==_iff j k)

abbrev pub or_zero : Bool → ℕ → ℕ
or_zero b n = if b then n else 0

-- What one more entry under `k` adds to what `j` counts for.
abbrev pub added : DeltaKey → DeltaKey → ℕ → ℕ
added j k cost = or_zero (j == k) cost

if_same : (b : Bool) → or_zero b 0 ≡ 0
if_same true = refl
if_same false = refl

live-append_delta :
    (j k : DeltaKey) (cost expiry after : ℕ) (d : Deltas)
    → after < expiry
    → live j after (append_delta k (cost, expiry) d) ≡ live j after d + added j k cost
live-append_delta j k cost expiry after d h = ground (
  arith,
  entries-append_delta j k (cost, expiry) d,
  total-append after (entries j d) ((cost, expiry) ∷ []),
)

-- For the 60 seconds after a request has ended, its cost counts under the keys of its client, its
-- workspace, its user and its model, and under no other key.
pub live-add_live_spend :
    (client_id : Option String) (workspace_id : String) (user_id : Option String) (cost : ℕ)
    (model : Option String) (now after : ℕ) (l : Ledger) (j : DeltaKey)
    → after < now + live_delta_ttl
    → live j after (add_live_spend client_id workspace_id user_id cost model now l).live_delta
      ≡ live j after l.live_delta
        + added j (client_key client_id) cost
        + added j (workspace_key workspace_id) cost
        + added j (user_key workspace_id user_id) cost
        + (if truthy model then added j (model_key workspace_id model) cost else 0)
unfolding add_live_spend invalidate_spend_cache
live-add_live_spend client_id workspace_id user_id zero model now after l j h =
    elim (Bool-cases (truthy model)) [
      | inl t ↦
          rw
            (
              t,
              if_same (j == client_key client_id),
              if_same (j == workspace_key workspace_id),
              if_same (j == user_key workspace_id user_id),
              if_same (j == model_key workspace_id model),
            )
            (omega arith)
      | inr f ↦
          rw
            (
              f,
              if_same (j == client_key client_id),
              if_same (j == workspace_key workspace_id),
              if_same (j == user_key workspace_id user_id),
            )
            (omega arith)
    ]
live-add_live_spend client_id workspace_id user_id (suc cost) model now after l j h =
    let expiry = now + live_delta_ttl in
    let entry : ℕ × ℕ = (suc cost, expiry) in
    let d1 = append_delta (client_key client_id) entry l.live_delta in
    let d2 = append_delta (workspace_key workspace_id) entry d1 in
    let d3 = append_delta (user_key workspace_id user_id) entry d2 in
    let e1 = live-append_delta j (client_key client_id) (suc cost) expiry after l.live_delta h in
    let e2 = live-append_delta j (workspace_key workspace_id) (suc cost) expiry after d1 h in
    let e3 = live-append_delta j (user_key workspace_id user_id) (suc cost) expiry after d2 h in
    let e4 = live-append_delta j (model_key workspace_id model) (suc cost) expiry after d3 h in
    elim (Bool-cases (truthy model)) [
      | inl t ↦ rw (t, e4, e3, e2, e1) refl
      | inr f ↦ rw (f, e3, e2, e1) (omega arith)
    ]

unexpired-unexpired :
    (now : ℕ) (xs : List (ℕ × ℕ))
    → total (unexpired now (unexpired now xs)) ≡ total (unexpired now xs)
unexpired-unexpired now [] = refl
unexpired-unexpired now (x ∷ xs) = ground (arith, unexpired-unexpired now xs)

-- Reading one key forgets only what has expired.
live-delta_for :
    (j k : DeltaKey) (after : ℕ) (l : Ledger)
    → live j after (delta_for k after l).1.live_delta ≡ live j after l.live_delta
unfolding delta_for
live-delta_for j k after l = ground (
  arith,
  lookup-insert {K = DeltaKey} k j (unexpired after (entries k l.live_delta)) l.live_delta,
  ==_iff j k,
  unexpired-unexpired after (entries k l.live_delta),
)

delta_for_lem :
    (k : DeltaKey) (after : ℕ) (l : Ledger) → (delta_for k after l).0 ≡ live k after l.live_delta
unfolding delta_for
delta_for_lem k after l = refl

base_spends-live :
    (k : CacheKey) (cutoff : ℕ) (db : Option (List RequestLog)) (now after : ℕ) (l : Ledger)
    → (base_spends k cutoff db now after l).1.live_delta ≡ l.live_delta
unfolding base_spends
base_spends-live k cutoff db now after l = ground arith

-- The spends that a check holds against the caps are the totals of the database or the cache, and
-- on top of each what has been spent in the last 60 seconds under the scope's key.
pub spend-live :
    (client_id : Option String) (workspace_id : String) (user_id model : Option String) (cutoff : ℕ)
    (db : Option (List RequestLog)) (now after : ℕ) (l : Ledger)
    → let k : CacheKey = ((client_id, workspace_id), (user_id, model)) in
      let base = (base_spends k cutoff db now after l).0 in
      let s = (spend k cutoff db now after l).0 in
      let d = l.live_delta in
      (s.client_spend ≡ base.client_spend + live (client_key client_id) after d)
      × (s.workspace_spend ≡ base.workspace_spend + live (workspace_key workspace_id) after d)
      × (s.user_spend ≡ base.user_spend + live (user_key workspace_id user_id) after d)
      × (s.model_spend
          ≡ base.model_spend
            + (if truthy model then live (model_key workspace_id model) after d else 0))
unfolding spend
spend-live client_id workspace_id user_id model cutoff db now after l =
    let k : CacheKey = ((client_id, workspace_id), (user_id, model)) in
    let (base, l0) = base_spends k cutoff db now after l in
    let l1 = (delta_for (client_key client_id) after l0).1 in
    let l2 = (delta_for (workspace_key workspace_id) after l1).1 in
    let l3 = (delta_for (user_key workspace_id user_id) after l2).1 in
    let e0 = base_spends-live k cutoff db now after l in
    let c = delta_for_lem (client_key client_id) after l0 in
    let w = delta_for_lem (workspace_key workspace_id) after l1 in
    let u = delta_for_lem (user_key workspace_id user_id) after l2 in
    let m = delta_for_lem (model_key workspace_id model) after l3 in
    let w1 = live-delta_for (workspace_key workspace_id) (client_key client_id) after l0 in
    let u1 = live-delta_for (user_key workspace_id user_id) (client_key client_id) after l0 in
    let u2 = live-delta_for (user_key workspace_id user_id) (workspace_key workspace_id) after l1 in
    let m1 = live-delta_for (model_key workspace_id model) (client_key client_id) after l0 in
    let m2 = live-delta_for (model_key workspace_id model) (workspace_key workspace_id) after l1 in
    let m3 =
      live-delta_for (model_key workspace_id model) (user_key workspace_id user_id) after l2 in
    (rw (c, e0) refl, rw (w, w1, e0) refl, rw (u, u2, u1, e0) refl, rw (m, m3, m2, m1, e0) refl)

added_self : (k : DeltaKey) (cost : ℕ) → added k k cost ≡ cost
added_self k cost = rw (==_refl k) refl

live-workspace_key :
    (client_id : Option String) (workspace_id : String) (user_id : Option String) (cost : ℕ)
    (model : Option String) (t after : ℕ) (l : Ledger)
    → after < t + live_delta_ttl
    → let k = workspace_key workspace_id in
      live k after (add_live_spend client_id workspace_id user_id cost model t l).live_delta
      ≡ live k after l.live_delta + cost
live-workspace_key client_id workspace_id user_id cost model t after l soon =
    let k = workspace_key workspace_id in
    rw
      (
        live-add_live_spend client_id workspace_id user_id cost model t after l k soon,
        added_self k cost,
        if_same (truthy model),
      )
      (omega arith)

enough :
    (cap cost base recent s : ℕ)
    → s ≡ base + recent
    → cost ≤ recent
    → suc cap ≤ cost
    → leb (suc cap) s ≡ true
enough cap cost base recent s e le h = ground arith

configured : (c : Caps) (cap : ℕ) → c.ws_cap ≡ some (suc cap) → nothing_configured c ≡ false
configured c cap h = ground arith

enforce-refused :
    (user_id : Option String) (c : Caps) (s : Spends) (cap : ℕ)
    → c.ws_cap ≡ some (suc cap)
    → leb (suc cap) s.workspace_spend ≡ true
    → is_allowed (enforce user_id c s) ≡ false
unfolding enforce
enforce-refused user_id c s cap h over = ground arith

-- A request that has just ended counts at once: if its cost reaches a workspace cap that is not
-- zero, then every check of that workspace in the next 60 seconds is refused, whatever the cache
-- holds and whether or not the database answers.
pub check_budget-add_live_spend :
    (client_id : Option String) (user_id : Option String) (cost cap : ℕ) (model : Option String)
    (t : ℕ) (l : Ledger) (q : Check) (cutoff : ℕ) (db : Option (List RequestLog)) (now after : ℕ)
    (d : Alerted)
    → q.caps.ws_cap ≡ some (suc cap)
    → suc cap ≤ cost
    → after < t + live_delta_ttl
    → let l' = add_live_spend client_id q.workspace_id user_id cost model t l in
      is_allowed (check_budget q cutoff db now after (l', d)).0 ≡ false
unfolding check_budget enforce
check_budget-add_live_spend client_id user_id cost cap model t l q cutoff db now after d capped big
      soon =
    let l' = add_live_spend client_id q.workspace_id user_id cost model t l in
    let (c, w, u, m) =
      spend-live q.client_id q.workspace_id q.user_id (check_key q).1.1 cutoff db now after l' in
    let s = (spend (check_key q) cutoff db now after l').0 in
    let counted = live-workspace_key client_id q.workspace_id user_id cost model t after l soon in
    let at_least : cost ≤ live (workspace_key q.workspace_id) after l'.live_delta =
      rw counted (omega arith) in
    let over = enough cap cost _ _ s.workspace_spend w at_least big in
    rw (configured q.caps cap capped) (enforce-refused q.user_id q.caps s cap capped over)

-- A request that has just ended adds nothing to the live spend that is held against the cap of a
-- part of the model's name, unless that part is the whole of the recorded model id.
pub live-model_part :
    (client_id : Option String) (workspace_id : String) (user_id : Option String) (cost : ℕ)
    (model part : String) (now after : ℕ) (l : Ledger)
    → after < now + live_delta_ttl
    → string_eq.beq part model ≡ false
    → live
        (model_key workspace_id (some part))
        after
        (add_live_spend client_id workspace_id user_id cost (some model) now l).live_delta
      ≡ live (model_key workspace_id (some part)) after l.live_delta
live-model_part client_id workspace_id user_id cost model part now after l soon other =
    let j = model_key workspace_id (some part) in
    let counted =
      live-add_live_spend client_id workspace_id user_id cost (some model) now after l j soon in
    let none_added : (if truthy (some model)
          then added j (model_key workspace_id (some model)) cost
          else 0)
        ≡ 0 =
      rw (==_refl workspace_id, other) (if_same (truthy (some model))) in
    rw (counted, none_added) (omega arith)

-- After a request has ended no total is cached for its client and workspace.
lookup-add_live_spend :
    (client_id : Option String) (workspace_id : String) (user_id : Option String) (cost : ℕ)
    (model : Option String) (t : ℕ) (l : Ledger) (u m : Option String)
    → let k : CacheKey = ((client_id, workspace_id), (u, m)) in
      lookup k (add_live_spend client_id workspace_id user_id (suc cost) model t l).cache ≡ none
unfolding add_live_spend invalidate_spend_cache
lookup-add_live_spend client_id workspace_id user_id cost model t l u m =
    let k : CacheKey = ((client_id, workspace_id), (u, m)) in
    rw
      (
        lookup-keep_keys (λ k. not (overlaps client_id workspace_id user_id k)) k l.cache,
        ==_refl client_id,
        ==_refl workspace_id,
      )
      refl

base_spends_missed :
    (client_id : Option String) (workspace_id : String) (u m : Option String) (cutoff : ℕ)
    (row : RequestLog) (rows : List RequestLog) (now after : ℕ) (l : Ledger)
    → let k : CacheKey = ((client_id, workspace_id), (u, m)) in
      lookup k l.cache ≡ none
      → (base_spends k cutoff (some (row ∷ rows)) now after l).0.workspace_spend
        ≡ sum_cost cutoff (λ r. r.workspace_id == workspace_id) (row ∷ rows)
unfolding base_spends query_spends
base_spends_missed client_id workspace_id u m cutoff row rows now after l missing =
    rw (base_spends, missing) refl

sum_cost_first :
    (cutoff : ℕ) (row : RequestLog) (rows : List RequestLog)
    → cutoff ≤ row.timestamp
    → sum_cost cutoff (λ r. r.workspace_id == row.workspace_id) (row ∷ rows)
      ≡ row.cost_usd + sum_cost cutoff (λ r. r.workspace_id == row.workspace_id) rows
sum_cost_first cutoff row rows recent =
    let in_window : leb cutoff row.timestamp ≡ true = ground arith in
    rw (==_refl row.workspace_id, in_window) refl

-- For the 60 seconds after a request has ended, a check of its client and workspace for which the
-- database already holds its row counts its cost twice: in the sum of the rows and as live spend.
pub spend-add_live_spend :
    (client_id : Option String) (user_id : Option String) (cost : ℕ) (model : Option String) (t : ℕ)
    (l : Ledger) (u m : Option String) (cutoff : ℕ) (row : RequestLog) (rows : List RequestLog)
    (now after : ℕ)
    → row.cost_usd ≡ suc cost
    → cutoff ≤ row.timestamp
    → after < t + live_delta_ttl
    → let w = row.workspace_id in
      let l' = add_live_spend client_id w user_id (suc cost) model t l in
      (spend ((client_id, w), (u, m)) cutoff (some (row ∷ rows)) now after l').0.workspace_spend
      ≡ (suc cost + sum_cost cutoff (λ r. r.workspace_id == w) rows)
        + (live (workspace_key w) after l.live_delta + suc cost)
spend-add_live_spend client_id user_id cost model t l u m cutoff row rows now after priced recent
      soon =
    let w = row.workspace_id in
    let l' = add_live_spend client_id w user_id (suc cost) model t l in
    let (c, total_of, us, ms) =
      spend-live client_id w u m cutoff (some (row ∷ rows)) now after l' in
    let missing = lookup-add_live_spend client_id w user_id cost model t l u m in
    let counted = live-workspace_key client_id w user_id (suc cost) model t after l soon in
    rw
      (
        total_of,
        base_spends_missed client_id w u m cutoff row rows now after l' missing,
        sum_cost_first cutoff row rows recent,
        counted,
        priced,
      )
      (omega arith)
