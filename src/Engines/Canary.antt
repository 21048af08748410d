-- ===== src/Engines/Canary.antt =====
-- How much of a provider's traffic a canary moves.
use agnos_proxy_oss.Base.{
  ℕ, ◌*◌, ◌≡◌, refl, String, false, Option, ltb, if◌then◌else◌, contains, string_eq, arith,
}
use agnos_proxy_oss.Base.Json.{ℤ, pos, Fields, int, get_or_null}
use agnos_proxy_oss.Engines.{Engine, direct, default_engine, direct_only, canary, select_engine}

select_engine_whole :
    (float_of : String → Option ℤ) (setting : String) (random n : ℕ) (overrides : Fields)
    (provider : String) (st : Option Engine)
    → contains direct_only provider ≡ false
    → get_or_null provider overrides ≡ int (pos n)
    → select_engine float_of setting random overrides provider st
      ≡ (if canary random (n * 1000000) then (direct, st) else default_engine setting st)
unfolding select_engine
select_engine_whole float_of setting random n overrides provider st free ov = rw (free, ov) refl

-- A provider under a canary of n per cent that has other engines than the owned one is served by the
-- owned engine for the random numbers below n hundredths, which at a hundred per cent are all of
-- them and at zero none, and by the default engine for the others.
pub select_engine_canary :
    (float_of : String → Option ℤ) (setting : String) (random n : ℕ) (overrides : Fields)
    (provider : String) (st : Option Engine)
    → contains direct_only provider ≡ false
    → get_or_null provider overrides ≡ int (pos n)
    → select_engine float_of setting random overrides provider st
      ≡ (if ltb random (n * 10000) then (direct, st) else default_engine setting st)
select_engine_canary float_of setting random n overrides provider st free ov =
    let same : canary random (n * 1000000) ≡ ltb random (n * 10000) = ground arith in
    rw (select_engine_whole float_of setting random n overrides provider st free ov, same) refl
