-- ===== src/RateLimit.antt =====
-- gateway/core/rate_limit.py: token buckets kept in memory. A clock reading is a number of
-- microseconds, and a token is 60,000,000 units, so that a bucket that refills `limit` tokens a
-- minute gains exactly `limit` units with each microsecond. All readings of the clock within one
-- check are one instant, `now`. A truthy limit is a positive number.
pub mod Bounds
pub mod Order
pub mod Admission
mod Tests
use agnos_proxy_oss.Base.{
  ℕ, zero, suc, ◌+◌, ◌-◌, ◌*◌, ◌/◌, ◌%◌, min, max, String, ◌<>◌, Bool, true, false, Option, none,
  some, leb, ltb, eqb, if◌then◌else◌, ◌&&◌, ◌||◌, string_eq, truthy,
}
use agnos_proxy_oss.Base.Dict.{Dict, lookup, insert}

-- Units to a token, and microseconds to a minute.
abbrev pub scale : ℕ
scale = 60_000_000

-- Microseconds to a tenth of a second.
abbrev pub tenth : ℕ
tenth = 100_000

pub record Bucket : Type 0 where
  pub capacity : ℕ
  pub tokens : ℕ
  pub refill : ℕ
  pub last : ℕ

-- The first two lines of `take`.
unfoldable pub refilled : ℕ → Bucket → Bucket
refilled now b = record b {
  tokens = min b.capacity (b.tokens + (now - b.last) * b.refill);
  last = now;
}

unfoldable pub take : ℕ → ℕ → Bucket → Bool × Bucket
take now n b =
    let b' = refilled now b in
    if leb n b'.tokens then (true, record b' { tokens = b'.tokens - n }) else (false, b')

-- Python's `round` to a whole number of a fraction: to the nearest, and to even at a half.
unfoldable pub round_half_even : ℕ → ℕ → ℕ
round_half_even a d =
    let q = a / d in
    let r = a % d in if ltb (2 * r) d then q else if ltb d (2 * r) then q + 1 else q + q % 2

-- `round(b.seconds_until(n), 1)`, in tenths of a second.
unfoldable pub seconds_until : ℕ → Bucket → ℕ
unfolding round_half_even
seconds_until n b =
    if eqb b.refill 0 then 600 else round_half_even (n - b.tokens) (b.refill * tenth)

abbrev pub Store : Type 0
Store = Dict String Bucket

abbrev pub full_bucket : ℕ → ℕ → Bucket
full_bucket limit now = record {
  capacity = limit * scale;
  tokens = limit * scale;
  refill = limit;
  last = now;
}

-- `_bucket`; the caller stores what it draws from.
unfoldable pub bucket : Store → String → ℕ → ℕ → Bucket
bucket store key limit now = elim (lookup key store) [
  | none ↦ full_bucket limit now
  | some b ↦ if eqb b.capacity (limit * scale) then b else full_bucket limit now
]

-- `b = self._bucket(...); if not b.take(n): ...`: the refusal's retry time, and the new store.
unfoldable pub draw : Store → String → ℕ → ℕ → ℕ → Option ℕ × Store
unfolding bucket take refilled
draw store key limit now n =
    let (granted, b) = take now (n * scale) (bucket store key limit now) in
    (if granted then none else some (seconds_until (n * scale) b), insert key b store)

pub record Limiter : Type 0 where
  pub rpm : Store
  pub tpm : Store

-- A quota dict: `{"rpm": .., "tpm": ..}`.
pub record Limits : Type 0 where
  pub rpm : Option ℕ
  pub tpm : Option ℕ

pub record WorkspaceLimits : Type 0 where
  pub limits : Limits
  pub user : Option Limits

pub data Kind : Type 0 where
  rpm_kind tpm_kind : Kind

pub data Scope : Type 0 where
  user_scope workspace_scope client_scope model_scope : Scope

-- `if rpm:` and what stands under it.
unfoldable pub check_rpm : String → Option ℕ → ℕ → Limiter → Option ℕ × Limiter
unfolding draw
check_rpm key none now l = (none, l)
check_rpm key (some zero) now l = (none, l)
check_rpm key (some (suc m)) now l =
    let (retry, store) = draw l.rpm key (suc m) now 1 in (retry, record l { rpm = store })

-- `if tpm:` and what stands under it.
unfoldable pub check_tpm : String → Option ℕ → ℕ → ℕ → Limiter → Option ℕ × Limiter
unfolding draw
check_tpm key none now est l = (none, l)
check_tpm key (some zero) now est l = (none, l)
check_tpm key (some (suc m)) now est l =
    let (retry, store) = draw l.tpm key (suc m) now (max 1 est) in (retry, record l { tpm = store })

-- The two checks of one scope: the dimension that refused with its retry time, or none.
unfoldable pub check_scope : String → Limits → ℕ → ℕ → Limiter → Option (Kind × ℕ) × Limiter
check_scope key q now est l =
    let (r, l') = check_rpm key q.rpm now l in
    let (t, l'') = check_tpm key q.tpm now est l' in
    elim r [
      | some retry ↦ (some (rpm_kind, retry), l')
      | none ↦ elim t [ some retry ↦ (some (tpm_kind, retry), l'') | none ↦ (none, l'') ]
    ]

-- `RateLimiter.check`
unfoldable pub check : String → String → Limits → ℕ → ℕ → Limiter → Option (Kind × ℕ) × Limiter
unfolding check_scope
check workspace_id alias quota est_tokens now l =
    check_scope (workspace_id <> ":" <> alias) quota now est_tokens l

pub data Verdict : Type 0 where
  allowed : Verdict
  refused : Scope → Kind → ℕ → Verdict

pub record Request : Type 0 where
  pub client_id : Option String
  pub workspace_id : String
  pub user_id : Option String
  pub alias : String
  pub client_rl : Option Limits
  pub workspace_rl : Option WorkspaceLimits
  pub model_quota : Option Limits
  pub est_tokens : ℕ

abbrev pub under :
    Scope → String → Limits → ℕ → ℕ → (Limiter → Verdict × Limiter) → Limiter → Verdict × Limiter
under scope key q now est rest l =
    let (r, l') = check_scope key q now est l in
    elim r [ some (kind, retry) ↦ (refused scope kind retry, l') | none ↦ rest l' ]

abbrev pub no_limits : Limits
no_limits = record { rpm = none; tpm = none }

unfoldable pub check_model : Request → ℕ → Limiter → Verdict × Limiter
check_model q now l = elim q.model_quota [
  | none ↦ (allowed, l)
  | some m ↦
      under model_scope ("model:" <> q.workspace_id <> ":" <> q.alias) m now q.est_tokens
        (λ l'. (allowed, l')) l
]

unfoldable pub check_client : Request → ℕ → Limiter → Verdict × Limiter
unfolding check_model
check_client q now l = elim q.client_id [
  | none ↦ check_model q now l
  | some c ↦ elim q.client_rl [
    | none ↦ check_model q now l
    | some m ↦
        if truthy (some c)
        then under client_scope ("client:" <> c) m now q.est_tokens (check_model q now) l
        else check_model q now l
  ]
]

unfoldable pub check_workspace : Request → ℕ → Limiter → Verdict × Limiter
unfolding check_client
check_workspace q now l = elim q.workspace_rl [
  | none ↦ check_client q now l
  | some w ↦
      under workspace_scope ("workspace:" <> q.workspace_id) w.limits now q.est_tokens
        (check_client q now) l
]

abbrev pub user_limits : WorkspaceLimits → Limits
user_limits w = elim w.user [ none ↦ no_limits | some u ↦ u ]

-- `RateLimiter.check_multi_scope`
unfoldable pub check_multi_scope : Request → ℕ → Limiter → Verdict × Limiter
unfolding check_workspace
check_multi_scope q now l = elim q.user_id [
  | none ↦ check_workspace q now l
  | some u ↦ elim q.workspace_rl [
    | none ↦ check_workspace q now l
    | some w ↦
        if truthy (some u)
        then under user_scope ("user:" <> q.workspace_id <> ":" <> u) (user_limits w) now
            q.est_tokens (check_workspace q now) l
        else check_workspace q now l
  ]
]
