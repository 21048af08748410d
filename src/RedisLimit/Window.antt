-- ===== src/RedisLimit/Window.antt =====
-- How many requests one window admits.
use agnos_proxy_oss.Base.{
  ℕ, zero, suc, ◌+◌, ◌≤◌, ◌≡◌, refl, String, ◌<>◌, Option, none, some, List, [], ◌∷◌, arith, ltb,
  max, if◌then◌else◌, string_eq, ◌≢◌, ==_iff, ==_refl,
}
use text.Mathlib.TextLemmas.{append_cancel_left}
use agnos_proxy_oss.RateLimit.{Limits}
use agnos_proxy_oss.RedisLimit.{Server, count, count_if, check_ident}

-- Redis as documented, while it answers: `INCRBY` adds to the counter of its key, which is 0 where
-- there is none, and touches no other; `EXPIRE` changes no counter before its time is up.
pub record Answers (S : Server) : Type 0 where
  pub counter : S.State → String → ℕ
  pub incrby_value :
      (k : String) (n : ℕ) (s : S.State) → (S.incrby k n s).0 ≡ some (counter s k + n)
  pub incrby_counter :
      (k j : String) (n : ℕ) (s : S.State)
      → counter (S.incrby k n s).1 j ≡ counter s j + (if string_eq.beq j k then n else 0)
  pub expire_value : (k : String) (t : ℕ) (s : S.State) → (S.expire k t s).0 ≡ some tt
  pub expire_counter :
      (k j : String) (t : ℕ) (s : S.State) → counter (S.expire k t s).1 j ≡ counter s j

t_not_r : ◌≢◌ {A = String} ":t" ":r"
t_not_r = ground (arith, ==_iff {A = String} ":t" ":r")

module _ (S : Server) (A : Answers S) where
  open A use {counter, incrby_value, incrby_counter, expire_value, expire_counter}

  -- One counter is raised by the need, and the request is over the limit exactly when the new
  -- count is.
  count_lem :
      (k j : String) (need limit : ℕ) (s : S.State)
      → ((count S k need limit s).0 ≡ some (ltb limit (counter s k + need)))
        × (counter (count S k need limit s).1 j
            ≡ counter s j + (if string_eq.beq j k then need else 0))
  unfolding count
  count_lem k j need limit s =
      let s' = (S.incrby k need s).1 in
      ground (
        arith,
        incrby_value k need s,
        incrby_counter k j need s,
        expire_value k 90 s',
        expire_counter k j 90 s',
      )

  abbrev base_key : String → ℕ → String
  base_key ident window = "rl:" <> ident <> ":" <> S.digits window

  keys_differ : (b : String) → b <> ":t" ≢ b <> ":r"
  keys_differ b e = t_not_r (append_cancel_left b ":t" ":r" e)

  module _ (ident : String) (window m : ℕ) (tpm : Option ℕ) where
    abbrev rpm_key : String
    rpm_key = base_key ident window <> ":r"

    abbrev quota : Limits
    quota = record { rpm = some (suc m); tpm = tpm }

    tpm_keeps :
        (t : Option ℕ) (need : ℕ) (s : S.State)
        → counter (count_if S (base_key ident window <> ":t") need t s).1 rpm_key
          ≡ counter s rpm_key
    unfolding count_if
    tpm_keeps none need s = refl
    tpm_keeps (some zero) need s = refl
    tpm_keeps (some (suc n)) need s =
        let tpm_key = base_key ident window <> ":t" in
        ground (
          arith,
          count_lem tpm_key rpm_key need (suc n) s,
          ==_iff rpm_key tpm_key,
          λ (e : tpm_key ≡ rpm_key). keys_differ (base_key ident window) e,
        )

    -- One request raises the window's counter by one, and passes only within the limit.
    check_ident_step :
        (need : ℕ) (s : S.State)
        → (counter (check_ident S ident quota window need s).1 rpm_key ≡ counter s rpm_key + 1)
          × ((check_ident S ident quota window need s).0 ≡ none → counter s rpm_key + 1 ≤ suc m)
    unfolding check_ident count_if
    check_ident_step need s = ground (
      arith,
      count_lem rpm_key rpm_key 1 (suc m) s,
      ==_refl rpm_key,
      tpm_keeps tpm need (count S rpm_key 1 (suc m) s).1,
    )

    pub passed : List ℕ → S.State → ℕ
    passed [] s = 0
    passed (need ∷ needs) s =
        let (k, s') = check_ident S ident quota window need s in
        elim k [ none ↦ 1 | some _ ↦ 0 ] + passed needs s'

    passed_bound :
        (needs : List ℕ) (s : S.State)
        → passed needs s + counter s rpm_key ≤ max (counter s rpm_key) (suc m)
    unfolding passed
    passed_bound [] s = omega arith
    passed_bound (need ∷ needs) s =
        let s' = (check_ident S ident quota window need s).1 in
        ground (arith, check_ident_step need s, passed_bound needs s')

    -- While the server answers, a window in which nothing has been counted yet admits at most as
    -- many requests of one scope as its limit says, from all replicas together.
    pub passed-le : (needs : List ℕ) (s : S.State) → counter s rpm_key ≡ 0 → passed needs s ≤ suc m
    passed-le needs s zero_count = omega (arith, passed_bound needs s)
