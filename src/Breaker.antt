-- ===== src/Breaker.antt =====
-- The circuit breaker of gateway/core/fallback.py: one entry for each workspace and provider. A
-- reading of the monotonic clock is a number of microseconds, and 0 stands for "not open".
pub mod Trip
mod Tests
use agnos_proxy_oss.Base.{
  ℕ, ◌+◌, ◌-◌, String, ◌<>◌, Bool, true, false, Option, none, some, leb, ltb, eqb, if◌then◌else◌,
  string_eq, [],
}
use agnos_proxy_oss.Base.Dict.{Dict, lookup, insert}

pub record Entry : Type 0 where
  pub fails : ℕ
  pub opened_at : ℕ

abbrev pub closed : Entry
closed = record { fails = 0; opened_at = 0 }

pub record CircuitBreaker : Type 0 where
  pub threshold : ℕ
  pub cooldown : ℕ
  pub entries : Dict String Entry

-- `CircuitBreaker()`
abbrev pub new_breaker : CircuitBreaker
new_breaker = record { threshold = 5; cooldown = 30_000_000; entries = [] }

abbrev pub key : String → String → String
key ws provider = ws <> ":" <> provider

-- `is_open`; an entry whose cooldown is over is reset.
unfoldable pub is_open : String → String → ℕ → CircuitBreaker → Bool × CircuitBreaker
is_open ws provider now c = elim (lookup (key ws provider) c.entries) [
  | none ↦ (false, c)
  | some b ↦
      if eqb b.opened_at 0
      then (false, c)
      else if ltb c.cooldown (now - b.opened_at)
      then (false, record c { entries = insert (key ws provider) closed c.entries })
      else (true, c)
]

-- What one outcome does to an entry.
unfoldable pub note : ℕ → ℕ → Bool → Entry → Entry
note threshold now true b = closed
note threshold now false b = record {
  fails = b.fails + 1;
  opened_at = if leb threshold (b.fails + 1) then now else b.opened_at;
}

-- `self._b.setdefault(k, _Breaker())`
abbrev pub entry_of : String → CircuitBreaker → Entry
entry_of k c = elim (lookup k c.entries) [ none ↦ closed | some b ↦ b ]

-- `record`
unfoldable pub record_outcome : String → String → ℕ → Bool → CircuitBreaker → CircuitBreaker
unfolding note
record_outcome ws provider now ok c = record c {
  entries =
      insert (key ws provider) (note c.threshold now ok (entry_of (key ws provider) c)) c.entries;
}
