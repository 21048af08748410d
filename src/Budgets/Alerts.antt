-- ===== src/Budgets/Alerts.antt =====
-- How often a cap raises an alert.
use agnos_proxy_oss.Base.{
  ℕ, zero, suc, ◌+◌, ◌≤◌, ◌<◌, ◌≡◌, String, none, some, List, [], ◌∷◌, ◌++◌, arith, All, leb, eqb,
  if◌then◌else◌, nat_eq, string_eq, ==_refl,
}
use agnos_proxy_oss.Base.Dict.{lookup, lookup-insert}
use agnos_proxy_oss.Budgets.{Scope, alert_window, scope_code}
use agnos_proxy_oss.Budgets.Check.{
  Alert, AlertKey, Alerted, alert_at, alert_key_eq, maybe_alert, recently,
}

-- The alerts of one cap over a sequence of spends and the times when they are looked at.
abbrev pub alerts_of : String → Scope → ℕ → List (ℕ × ℕ) → Alerted → List Alert
alerts_of target scope cap [] d = []
alerts_of target scope cap ((spent, now) ∷ ts) d =
    let (fired, d') = maybe_alert target scope spent cap now d in
    fired ++ alerts_of target scope cap ts d'

-- How many of the alerts are for a threshold.
abbrev pub count_at : ℕ → List Alert → ℕ
count_at threshold [] = 0
count_at threshold ((target, sc, th, spent, cap) ∷ l) =
    if eqb th threshold then suc (count_at threshold l) else count_at threshold l

count_at-append :
    (threshold : ℕ) (xs ys : List Alert)
    → count_at threshold (xs ++ ys) ≡ count_at threshold xs + count_at threshold ys
count_at-append threshold [] ys = omega arith
count_at-append threshold ((t, sc, th, s, c) ∷ xs) ys =
    ground (arith, count_at-append threshold xs ys)

-- How many alerts a threshold has left before a time.
abbrev left_at : AlertKey → ℕ → Alerted → ℕ
left_at k until d = elim (lookup k d) [ none ↦ 1 | some u ↦ if leb until u then 0 else 1 ]

alert_at-left :
    (target : String) (sc : Scope) (th spent cap now threshold start : ℕ) (d : Alerted)
    → start ≤ now
    → now < start + alert_window
    → let k : AlertKey = ((target, scope_code sc), threshold) in
      let (fired, d') = alert_at target sc th spent cap now d in
      count_at threshold fired + left_at k (start + alert_window) d'
      ≤ left_at k (start + alert_window) d
unfolding alert_at recently
alert_at-left target sc th spent cap now threshold start d low high = ground (
  arith,
  lookup-insert {K = AlertKey} ((target, scope_code sc), th) ((target, scope_code sc), threshold)
      (now + alert_window) d,
  ==_refl target,
  ==_refl (scope_code sc),
)

maybe_alert-left :
    (target : String) (sc : Scope) (spent cap now threshold start : ℕ) (d : Alerted)
    → start ≤ now
    → now < start + alert_window
    → let k : AlertKey = ((target, scope_code sc), threshold) in
      let (fired, d') = maybe_alert target sc spent cap now d in
      count_at threshold fired + left_at k (start + alert_window) d'
      ≤ left_at k (start + alert_window) d
unfolding maybe_alert
maybe_alert-left target sc spent zero now threshold start d low high = omega arith
maybe_alert-left target sc spent (suc cap) now threshold start d low high = ground (
  arith,
  alert_at-left target sc 100 spent (suc cap) now threshold start d low high,
  alert_at-left target sc 80 spent (suc cap) now threshold start d low high,
)

alerts_of-left :
    (target : String) (sc : Scope) (cap threshold start : ℕ) (ts : List (ℕ × ℕ)) (d : Alerted)
    → All (λ t. (start ≤ t.1) × (t.1 < start + alert_window)) ts
    → count_at threshold (alerts_of target sc cap ts d)
      ≤ left_at ((target, scope_code sc), threshold) (start + alert_window) d
alerts_of-left target sc cap threshold start [] d h = omega arith
alerts_of-left target sc cap threshold start ((spent, now) ∷ ts) d ((low, high), hs) =
    let (fired, d') = maybe_alert target sc spent cap now d in
    omega (
      arith,
      count_at-append threshold fired (alerts_of target sc cap ts d'),
      maybe_alert-left target sc spent cap now threshold start d low high,
      alerts_of-left target sc cap threshold start ts d' hs,
    )

-- However often one cap is looked at within an hour, and whatever its spend is then, each threshold
-- of 80 and 100 per cent raises at most one alert for it.
pub alerts_of-le :
    (target : String) (sc : Scope) (cap threshold start : ℕ) (ts : List (ℕ × ℕ)) (d : Alerted)
    → All (λ t. (start ≤ t.1) × (t.1 < start + alert_window)) ts
    → count_at threshold (alerts_of target sc cap ts d) ≤ 1
alerts_of-le target sc cap threshold start ts d h =
    let k : AlertKey = ((target, scope_code sc), threshold) in
    ground (arith, alerts_of-left target sc cap threshold start ts d h)
