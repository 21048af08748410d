-- ===== src/RedisLimit.antt =====
-- gateway/core/redis_rate_limit.py: fixed-window counters on a Redis server that all replicas
-- share, and the choice between the two limiters. The server is a parameter: `INCRBY` gives the
-- counter after the increment or raises, `EXPIRE` answers or raises. Time is in microseconds, and
-- the time until the next window in tenths of a second.
pub mod Window
mod Tests
use agnos_proxy_oss.Base.{
  truthy, ℕ, zero, suc, ◌+◌, ◌-◌, ◌*◌, ◌/◌, ◌%◌, max, String, ◌<>◌, Bool, true, false, Option, none,
  some, ltb, eqb, if◌then◌else◌, ⊤, ◌&&◌,
}
use agnos_proxy_oss.RateLimit
use agnos_proxy_oss.RateLimit.{
  Kind, rpm_kind, tpm_kind, Scope, user_scope, workspace_scope, client_scope, model_scope, Verdict,
  allowed, refused, Request, Limits, Limiter, user_limits, scale, tenth, round_half_even,
}

pub record Server : Type 1 where
  pub State : Type 0
  pub incrby : String → ℕ → State → Option ℕ × State
  pub expire : String → ℕ → State → Option ⊤ × State
  -- How a number is written.
  pub digits : ℕ → String

module _ (S : Server) where
  open S use {State, incrby, expire, digits}

  -- One counter: `none` is an exception, and else whether the limit is exceeded.
  unfoldable pub count : String → ℕ → ℕ → State → Option Bool × State
  count key need limit s =
      let (n, s') = incrby key need s in
      let (done, s'') = expire key 90 s' in
      elim n [
        | none ↦ (none, s')
        | some c ↦
            if eqb c need
            then elim done [ none ↦ (none, s'') | some _ ↦ (some (ltb limit c), s'') ]
            else (some (ltb limit c), s')
      ]

  -- `if rpm:` or `if tpm:`. An absent limit is not exceeded.
  unfoldable pub count_if : String → ℕ → Option ℕ → State → Option Bool × State
  count_if key need none s = (some false, s)
  count_if key need (some zero) s = (some false, s)
  count_if key need (some (suc m)) s = count key need (suc m) s

  -- `_scope`: the dimension that is over its limit. An exception lets the request pass.
  unfoldable pub check_ident : String → Limits → ℕ → ℕ → State → Option Kind × State
  check_ident ident q window need s =
      let base = "rl:" <> ident <> ":" <> digits window in
      let (r, s') = count_if (base <> ":r") 1 q.rpm s in
      let (t, s'') = count_if (base <> ":t") need q.tpm s' in
      elim r [
        | none ↦ (none, s')
        | some true ↦ (some rpm_kind, s')
        | some false ↦ elim t [ some true ↦ (some tpm_kind, s'') | _ ↦ (none, s'') ]
      ]

  -- The start of the current window, in minutes, and what is left of it.
  abbrev pub window_of : ℕ → ℕ
  window_of now = now / scale

  abbrev pub retry_of : ℕ → ℕ
  retry_of now = round_half_even (scale - now % scale) tenth

  -- `RedisRateLimiter.check`; `none` is the missing client.
  unfoldable pub check : String → String → Limits → ℕ → ℕ → State → Option (Kind × ℕ) × State
  unfolding check_ident count_if count
  check workspace_id alias quota est now s =
      let (k, s') =
        check_ident (workspace_id <> ":" <> alias) quota (window_of now) (max 1 est) s in
      (elim k [ none ↦ none | some kind ↦ some (kind, scale - now % scale) ], s')

  -- One scope's block, and then the rest of the method.
  abbrev pub under :
      Scope → String → Limits → ℕ → ℕ → (State → Verdict × State) → State → Verdict × State
  under scope ident q now need rest s =
      let (k, s') = check_ident ident q (window_of now) need s in
      elim k [ some kind ↦ (refused scope kind (retry_of now), s') | none ↦ rest s' ]

  unfoldable pub check_model : Request → ℕ → State → Verdict × State
  check_model q now s = elim q.model_quota [
    | none ↦ (allowed, s)
    | some m ↦
        under model_scope ("model:" <> q.workspace_id <> ":" <> q.alias) m now (max 1 q.est_tokens)
          (λ s'. (allowed, s')) s
  ]

  unfoldable pub check_client : Request → ℕ → State → Verdict × State
  unfolding check_model
  check_client q now s = elim q.client_id [
    | none ↦ check_model q now s
    | some c ↦ elim q.client_rl [
      | none ↦ check_model q now s
      | some m ↦
          if truthy (some c)
          then under client_scope ("client:" <> c) m now (max 1 q.est_tokens) (check_model q now) s
          else check_model q now s
    ]
  ]

  unfoldable pub check_workspace : Request → ℕ → State → Verdict × State
  unfolding check_client
  check_workspace q now s = elim q.workspace_rl [
    | none ↦ check_client q now s
    | some w ↦
        under workspace_scope ("workspace:" <> q.workspace_id) w.limits now (max 1 q.est_tokens)
          (check_client q now) s
  ]

  -- `RedisRateLimiter.check_multi_scope`
  unfoldable pub check_multi_scope : Request → ℕ → State → Verdict × State
  unfolding check_workspace
  check_multi_scope q now s = elim q.user_id [
    | none ↦ check_workspace q now s
    | some u ↦ elim q.workspace_rl [
      | none ↦ check_workspace q now s
      | some w ↦
          if truthy (some u)
          then under user_scope ("user:" <> q.workspace_id <> ":" <> u) (user_limits w) now
              (max 1 q.est_tokens) (check_workspace q now) s
          else check_workspace q now s
    ]
  ]

  -- `enforce_multi_scope` of rate_limit.py: the wall clock serves Redis, the monotonic clock the
  -- buckets.
  unfoldable pub enforce_multi_scope :
      Bool → Request → ℕ → ℕ → Limiter × State → Verdict × Limiter × State
  enforce_multi_scope using_redis q wall now (l, s) =
      if using_redis
      then (let (v, s') = check_multi_scope q wall s in (v, l, s'))
      else (let (v, l') = RateLimit.check_multi_scope q now l in (v, l', s))
