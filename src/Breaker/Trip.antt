-- ===== src/Breaker/Trip.antt =====
-- When a breaker opens and closes.
use agnos_proxy_oss.Base.{
  ℕ, suc, ◌+◌, ◌-◌, ◌≤◌, ◌<◌, ◌≡◌, ◌≢◌, refl, String, Bool, true, false, List, [], ◌∷◌, arith,
  length, leb, eqb, if◌then◌else◌, string_eq, ◌∙◌,
}
use agnos_proxy_oss.Base.Dict.{lookup-insert, lookup-insert_self, lookup-insert_ne}
use agnos_proxy_oss.Breaker.{closed, CircuitBreaker, key, is_open, note, entry_of, record_outcome}

module _ (ws provider : String) where
  -- Failures of one provider, each at its time.
  pub fail_at : List ℕ → CircuitBreaker → CircuitBreaker
  fail_at [] c = c
  fail_at (t ∷ ts) c = fail_at ts (record_outcome ws provider t false c)

  entry_of-record :
      (now : ℕ) (ok : Bool) (c : CircuitBreaker)
      → entry_of (key ws provider) (record_outcome ws provider now ok c)
        ≡ note c.threshold now ok (entry_of (key ws provider) c)
  unfolding record_outcome
  entry_of-record now ok c = ground (
    arith,
    lookup-insert_self (key ws provider) (note c.threshold now ok (entry_of (key ws provider) c))
        c.entries,
  )

  record_limits :
      (now : ℕ) (ok : Bool) (c : CircuitBreaker)
      → ((record_outcome ws provider now ok c).threshold ≡ c.threshold)
        × ((record_outcome ws provider now ok c).cooldown ≡ c.cooldown)
  unfolding record_outcome
  record_limits now ok c = (refl, refl)

  is_open-entry :
      (now : ℕ) (c : CircuitBreaker)
      → (is_open ws provider now c).0 ≡ (
          if eqb (entry_of (key ws provider) c).opened_at 0
          then false
          else leb (now - (entry_of (key ws provider) c).opened_at) c.cooldown)
  unfolding is_open
  is_open-entry now c = ground arith

  abbrev pub last_of : ℕ → List ℕ → ℕ
  last_of t [] = t
  last_of t (u ∷ us) = last_of u us

  fail_at-opened :
      (t : ℕ) (ts : List ℕ) (c : CircuitBreaker)
      → c.threshold ≤ (entry_of (key ws provider) c).fails + suc (length ts)
      → ((entry_of (key ws provider) (fail_at (t ∷ ts) c)).opened_at ≡ last_of t ts)
        × ((fail_at (t ∷ ts) c).cooldown ≡ c.cooldown)
  unfolding fail_at note
  fail_at-opened t [] c h = ground (arith, entry_of-record t false c, record_limits t false c)
  fail_at-opened t (u ∷ us) c h =
      let c' = record_outcome ws provider t false c in
      let counted : (entry_of (key ws provider) c').fails
          ≡ (entry_of (key ws provider) c).fails + 1 =
        ground (arith, entry_of-record t false c) in
      let (same_threshold, same_cooldown) = record_limits t false c in
      let (opened, kept) = fail_at-opened u us c' (omega arith) in (opened, kept ∙ same_cooldown)

  -- As many failures in a row as the threshold says open the breaker, whatever happened before;
  -- it is open at a later time exactly while the cooldown since the last failure lasts.
  pub fail_at-is_open :
      (t : ℕ) (ts : List ℕ) (now : ℕ) (c : CircuitBreaker)
      → c.threshold ≤ suc (length ts)
      → 0 < last_of t ts
      → (is_open ws provider now (fail_at (t ∷ ts) c)).0 ≡ leb (now - last_of t ts) c.cooldown
  fail_at-is_open t ts now c enough started =
      let (opened, kept) = fail_at-opened t ts c (omega arith) in
      ground (arith, is_open-entry now (fail_at (t ∷ ts) c))

  -- Below the threshold nothing opens: a closed breaker stays closed through fewer failures.
  pub fail_at_below :
      (ts : List ℕ) (now : ℕ) (c : CircuitBreaker)
      → (entry_of (key ws provider) c).opened_at ≡ 0
      → (entry_of (key ws provider) c).fails + length ts < c.threshold
      → (is_open ws provider now (fail_at ts c)).0 ≡ false
  unfolding fail_at note
  fail_at_below [] now c shut few = ground (arith, is_open-entry now c)
  fail_at_below (t ∷ ts) now c shut few =
      let c' = record_outcome ws provider t false c in
      let fields = record_limits t false c in
      let shut' : (entry_of (key ws provider) c').opened_at ≡ 0 =
        ground (arith, entry_of-record t false c) in
      let counted : (entry_of (key ws provider) c').fails
          ≡ (entry_of (key ws provider) c).fails + 1 =
        ground (arith, entry_of-record t false c) in
      fail_at_below ts now c' shut' (omega arith)

  -- A success closes the breaker and forgets the failures, and so does the first look after the
  -- cooldown; neither touches the entry of another key.
  pub record_success-closed :
      (now : ℕ) (c : CircuitBreaker) (k : String)
      → let c' = record_outcome ws provider now true c in
        entry_of k c' ≡ (if string_eq.beq k (key ws provider) then closed else entry_of k c)
  unfolding record_outcome note
  record_success-closed now c k = ground (arith, lookup-insert (key ws provider) k closed c.entries)

  pub is_open-closed :
      (now : ℕ) (c : CircuitBreaker) (k : String)
      → (is_open ws provider now c).0 ≡ false
      → let c' = (is_open ws provider now c).1 in
        ((entry_of (key ws provider) c').opened_at ≡ 0)
        × (k ≢ key ws provider → entry_of k c' ≡ entry_of k c)
  unfolding is_open
  is_open-closed now c k h = (
    ground (arith, lookup-insert_self (key ws provider) closed c.entries),
    λ ne. ground (arith, lookup-insert_ne (key ws provider) k closed c.entries ne),
  )
