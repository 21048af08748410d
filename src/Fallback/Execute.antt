-- ===== src/Fallback/Execute.antt =====
-- gateway/core/fallback.py: the loops of execute.
use agnos_proxy_oss.Base.{
  ℕ, zero, suc, ◌+◌, ◌-◌, String, ◌<>◌, Bool, true, false, Option, none, some, List, [], ◌∷◌, ◌++◌,
  ◌&&◌, not, leb, if◌then◌else◌, string_eq, truthy, nat_eq,
}
use agnos_proxy_oss.Registry.{ResolvedTarget, Settings, hydrate_from_config, resolve_timeout_s}
use agnos_proxy_oss.Breaker.{CircuitBreaker, is_open, record_outcome}
use agnos_proxy_oss.Fallback.{
  Credential, EngineResult, FallbackResult, Outcome, Run, Served, World, answered, error_body,
  Ending, served, exhausted, crashed, error_message, error_type, is_sliceable, is_hashable, failed,
  is_ok, is_retryable, raised, skipped, text_of, timed_out,
}

module _ (W : World) (settings : Settings) (workspace_id : String) (max_retries : ℕ) where
  open W use {State, now, credential, chat, pause, digits}

  -- The result of the awaited call, its exceptions caught.
  abbrev pub caught : ℕ → Outcome → EngineResult
  caught eff_to (answered r) = r
  caught eff_to timed_out = record {
    body = error_body ("Upstream timed out after " <> digits eff_to <> "s.") "timeout";
    status_code = 504;
  }
  caught eff_to (raised message) = record {
    body = error_body message "upstream_error";
    status_code = 502;
  }

  abbrev pub after_failure : ResolvedTarget → ℕ → EngineResult → ℕ → State → Run State → Run State
  after_failure t attempt result ms w r = record r {
    breaker = record_outcome workspace_id t.provider (now w) false r.breaker;
    world = w;
    attempts =
        r.attempts
        ++ (failed t.provider t.model_id attempt result.status_code (error_type result)
              (error_message result) ms
            ∷ []);
    last = some result;
  }

  -- `while attempt <= max_retries`, by the rounds that are left.
  unfoldable pub attempt_loop : ℕ → ℕ → ResolvedTarget → Run State → Ending Served × Run State
  unfolding is_ok is_retryable
  attempt_loop zero attempt t r = (exhausted, r)
  attempt_loop (suc left) attempt t r =
      let (outcome, w) = chat t r.eff_to r.world in
      let result = caught r.eff_to outcome in
      let ms = now w - now r.world in
      let r' = after_failure t (attempt + 1) result ms w r in
      let retried =
        attempt_loop left (attempt + 1) t (record r' { world = pause (attempt + 1) w }) in
      if is_ok result
      then (
        served (result, attempt + 1, ms),
        record r {
          breaker = record_outcome workspace_id t.provider (now w) true r.breaker;
          world = w;
        },
      )
      else if not (is_sliceable (error_message result))
      then (crashed, record r { world = w })
      else if not (is_hashable (error_type result))
      then (crashed, r')
      else if is_retryable result && leb (attempt + 1) max_retries
      then retried
      else (exhausted, r')

  abbrev pub with_credential : Option Credential → ResolvedTarget → ResolvedTarget
  with_credential none t = t
  with_credential (some c) t = hydrate_from_config (record t {
    credentials = c.credentials;
    config = c.config;
    bifrost_key_name = c.bifrost_key_name;
  })

  -- `float(timeout) if timeout else ...`
  abbrev pub deadline : Option ℕ → ResolvedTarget → ℕ
  deadline none t = resolve_timeout_s settings t.config
  deadline (some zero) t = resolve_timeout_s settings t.config
  deadline (some (suc n)) t = suc n

  -- The `continue` of an open breaker.
  abbrev pub skip : ResolvedTarget → CircuitBreaker → Run State → Run State
  skip t c r = record r {
    breaker = c;
    fb_events =
        if truthy r.prev_provider
        then r.fb_events ++ ((text_of r.prev_provider, t.provider, "circuit_open_skip_prev") ∷ [])
        else r.fb_events;
    attempts = r.attempts ++ (skipped t.provider t.model_id ∷ []);
    tried = some t;
  }

  -- The rest of the body of the `for`, up to the inner loop: the target with its credential.
  abbrev pub prepare :
      Bool → Option ℕ → ResolvedTarget → CircuitBreaker → Run State → ResolvedTarget × Run State
  prepare first timeout t c r =
      let (cred, w) = credential workspace_id t.provider r.world in
      let t' = with_credential cred t in
      (
        t',
        record r {
          breaker = c;
          world = w;
          fb_events =
              if not first && truthy r.prev_provider
              then r.fb_events ++ ((text_of r.prev_provider, t'.provider, "primary_failed") ∷ [])
              else r.fb_events;
          eff_to = deadline timeout t';
        },
      )

  -- `for idx, target in enumerate(targets)`; `first` is `idx == 0`.
  unfoldable pub target_loop :
      Bool
      → Option ℕ
      → List ResolvedTarget
      → Run State
      → Ending (Served × ResolvedTarget) × Run State
  unfolding attempt_loop
  target_loop first timeout [] r = (exhausted, r)
  target_loop first timeout (t ∷ ts) r =
      let (open_now, c) = is_open workspace_id t.provider (now r.world) r.breaker in
      let passed = target_loop false timeout ts (skip t c r) in
      let (t', r') = prepare first timeout t c r in
      let (end_, r'') = attempt_loop (suc max_retries) 0 t' r' in
      let failed_over =
        target_loop false timeout ts
          (record r'' { prev_provider = some t'.provider; tried = some t' }) in
      if open_now then passed else elim end_ [
        | served s ↦ (served (s, t'), r'')
        | exhausted ↦ failed_over
        | crashed ↦ (crashed, r'')
      ]

  abbrev pub start : Option ℕ → CircuitBreaker → State → Run State
  start timeout c w = record {
    breaker = c;
    world = w;
    fb_events = [];
    attempts = [];
    last = none;
    prev_provider = none;
    tried = none;
    eff_to = elim timeout [ none ↦ 0 | some n ↦ n ];
  }

  abbrev pub all_failed : EngineResult
  all_failed = record { body = error_body "all targets failed" "upstream_error"; status_code = 502 }

  abbrev pub last_or : Option EngineResult → EngineResult
  last_or none = all_failed
  last_or (some r) = r

  abbrev pub gave_up : Option ResolvedTarget → Run State → Option FallbackResult
  gave_up none r = none
  gave_up (some t) r = some (record {
    result = last_or r.last;
    target = t;
    attempt = 1;
    provider_time = 0;
    fallbacks_emitted = r.fb_events;
    attempts = r.attempts;
    effective_timeout_s = r.eff_to;
  })

  -- The two `return`s. An exception is `none`, as is the `IndexError` of the last one with no target.
  abbrev pub finish : Ending (Served × ResolvedTarget) → Run State → Option FallbackResult
  finish crashed r = none
  finish exhausted r = gave_up r.tried r
  finish (served ((result, attempt, ms), t)) r = some (record {
    result = result;
    target = t;
    attempt = attempt;
    provider_time = ms;
    fallbacks_emitted = r.fb_events;
    attempts = r.attempts;
    effective_timeout_s = r.eff_to;
  })

  -- `execute`: its result, the breaker and the world after it.
  unfoldable pub execute :
      Option ℕ
      → List ResolvedTarget
      → CircuitBreaker
      → State
      → Option FallbackResult × CircuitBreaker × State
  unfolding target_loop
  execute timeout ts c w =
      let (end_, r) = target_loop true timeout ts (start timeout c w) in
      (finish end_ r, r.breaker, r.world)
