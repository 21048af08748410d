-- ===== src/Fallback/Skips.antt =====
-- Targets behind an open breaker.
use agnos_proxy_oss.Base.{
  ℕ, ◌≡◌, refl, String, Bool, true, false, Option, some, List, [], ◌∷◌, ◌++◌, arith, All, map, ◌∙◌,
  sym,
}
use mathlib.Core.List.{append-nil, append_assoc}
use agnos_proxy_oss.Registry.{ResolvedTarget, Settings}
use agnos_proxy_oss.Breaker.{CircuitBreaker, is_open}
use agnos_proxy_oss.Fallback.{Attempt, FallbackResult, Run, World, exhausted, skipped}
use agnos_proxy_oss.Fallback.Execute.{all_failed, execute, skip, start, target_loop}
use agnos_proxy_oss.Fallback.Served.{LastTried, LastTried-cons}

module _ (W : World) (settings : Settings) (workspace_id : String) (max_retries : ℕ) where
  is_open-kept :
      (provider : String) (now : ℕ) (c : CircuitBreaker)
      → (is_open workspace_id provider now c).0 ≡ true
      → (is_open workspace_id provider now c).1 ≡ c
  unfolding is_open
  is_open-kept provider now c h = ground arith

  abbrev pub skipped_all : List ResolvedTarget → List Attempt
  skipped_all = map (λ t. skipped t.provider t.model_id)

  target_loop_open :
      (first : Bool) (timeout : Option ℕ) (ts : List ResolvedTarget) (r : Run W.State)
      → All (λ t. (is_open workspace_id t.provider (W.now r.world) r.breaker).0 ≡ true) ts
      → let (end_, r') = target_loop W settings workspace_id max_retries first timeout ts r in
        (end_ ≡ exhausted)
        × (r'.world ≡ r.world)
        × (r'.breaker ≡ r.breaker)
        × (r'.last ≡ r.last)
        × (r'.attempts ≡ r.attempts ++ skipped_all ts)
        × LastTried ts r r'
  unfolding target_loop
  target_loop_open first timeout [] r h =
      (refl, refl, refl, refl, sym (append-nil r.attempts), refl)
  target_loop_open first timeout (t ∷ ts) r (h, hs) =
      let kept = is_open-kept t.provider (W.now r.world) r.breaker h in
      let r' = skip W settings workspace_id max_retries t r.breaker r in
      let (none_served, world, breaker, last, log, tried) =
        target_loop_open false timeout ts r' hs in
      rw (h, kept)
        (
          none_served,
          world,
          breaker,
          last,
          log ∙ append_assoc r.attempts _ (skipped_all ts),
          LastTried-cons t t ts r r' _ refl tried,
        )

  -- If every target's breaker is open, no engine is called and no credential is read: the run
  -- returns the 502 of a failure of all targets, leaves the world and the breaker as they were and
  -- logs one skip for each target.
  pub execute_every_open :
      (timeout : Option ℕ) (t : ResolvedTarget) (ts : List ResolvedTarget) (c : CircuitBreaker)
      (w : W.State)
      → All (λ u. (is_open workspace_id u.provider (W.now w) c).0 ≡ true) (t ∷ ts)
      → (f : FallbackResult) × (execute W settings workspace_id max_retries timeout (t ∷ ts) c w
          ≡ (some f, c, w))
        × (f.result ≡ all_failed W settings workspace_id max_retries)
        × (f.attempts ≡ skipped_all (t ∷ ts))
  unfolding execute
  execute_every_open timeout t ts c w h =
      let r = start W settings workspace_id max_retries timeout c w in
      let r' = (target_loop W settings workspace_id max_retries true timeout (t ∷ ts) r).1 in
      let (none_served, world, breaker, last, log, (u, tried)) =
        target_loop_open true timeout (t ∷ ts) r h in
      (
        record {
          result = all_failed W settings workspace_id max_retries;
          target = u;
          attempt = 1;
          provider_time = 0;
          fallbacks_emitted = r'.fb_events;
          attempts = skipped_all (t ∷ ts);
          effective_timeout_s = r'.eff_to;
        },
        rw (none_served, world, breaker, tried, last, log) refl,
        refl,
        refl,
      )
