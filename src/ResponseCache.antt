-- ===== src/ResponseCache.antt =====
-- gateway/core/cache.py: the response cache. Redis is the parameter `Redis`, none where it is not
-- configured; a call that raises is `none`. A stored value is its JSON text, of which the library
-- gives the value back.
pub mod Bound
mod Tests
use agnos_proxy_oss.Base.{
  ℕ, ◌+◌, String, Bool, true, false, Option, none, some, List, [], ◌∷◌, ltb, if◌then◌else◌, length,
  string_eq, ⊤,
}
use agnos_proxy_oss.Base.Dict.{Dict, lookup, insert}

pub record Redis : Type 1 where
  pub State : Type 0
  -- None if there is no value for the key.
  pub get_value : String → State → Option (Option String) × State
  pub set_value : String → String → ℕ → State → Option ⊤ × State

-- `_MEM`
abbrev pub Mem : Type 0
Mem = Dict String (String × ℕ)

abbrev pub mem_max : ℕ
mem_max = 5000

-- `get` without Redis.
unfoldable pub get_local : String → ℕ → Mem → Option String
unfolding lookup
get_local key now mem = elim (lookup key mem) [
  | none ↦ none
  | some (data_, expiry) ↦ if ltb now expiry then some data_ else none
]

-- The last lines of `put`.
unfoldable pub put_local : String → String → ℕ → ℕ → Mem → Mem
unfolding insert
put_local key data_ ttl now mem =
    insert key (data_, now + ttl) (if ltb mem_max (length mem) then [] else mem)

module _ (R : Redis) where
  abbrev pub answer : Option (Option String) → Option String
  answer none = none
  answer (some v) = v

  -- `get`
  unfoldable pub get : Bool → String → ℕ → Mem → R.State → Option String × R.State
  unfolding get_local
  get configured key now mem s =
      let (v, s') = R.get_value key s in
      if configured then (answer v, s') else (get_local key now mem, s)

  -- `put`
  unfoldable pub put : Bool → String → String → ℕ → ℕ → Mem → R.State → Mem × R.State
  unfolding put_local
  put configured key data_ ttl now mem s =
      let (done, s') = R.set_value key data_ ttl s in
      if configured
      then elim done [ none ↦ (put_local key data_ ttl now mem, s') | some u ↦ (mem, s') ]
      else (put_local key data_ ttl now mem, s)
