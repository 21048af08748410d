-- ===== src/Fallback/Tests.antt =====
-- A run over two targets whose engine fails.
use agnos_proxy_oss.Base.{ℕ, ◌+◌, ◌≡◌, refl, String, true, some, none, [], ◌∷◌}
use agnos_proxy_oss.Base.Json.{end, field, obj, int, null, pos}
use agnos_proxy_oss.Base.Dict.{lookup}
use agnos_proxy_oss.Registry.{ResolvedTarget, Settings}
use agnos_proxy_oss.Breaker.{CircuitBreaker, is_open}
use agnos_proxy_oss.Fallback.{FallbackResult, World, answered, timed_out}
use agnos_proxy_oss.Fallback.Execute.{all_failed, execute}
use agnos_proxy_oss.Fallback.Served.{Returns, execute-Reported}
use agnos_proxy_oss.Fallback.Skips.{skipped_all, execute_every_open}

-- The state is the clock; every call takes two ticks and times out.
abbrev slow : World
slow = record {
  State = ℕ;
  now = λ t. t;
  credential = λ ws p t. (none, t);
  chat = λ target eff t. (timed_out, t + 2);
  pause = λ n t. t + 1;
  digits = λ n. "n";
}

abbrev limits : Settings
limits = record { default_timeout_s = 60; max_timeout_s = 600 }

abbrev target : String → ResolvedTarget
target provider = record {
  provider = provider;
  model_id = "m";
  context_window = null;
  weight = pos 1000000;
  credentials = end;
  config = end;
  bifrost_key_name = none;
  workspace_id = none;
  region = null;
  base_url = null;
  api_version = null;
}

abbrev fresh : CircuitBreaker
fresh = record { threshold = 3; cooldown = 30; entries = [] }

execute-Reported_example :
    Returns slow limits "w" 1
      (target "a" ∷ target "b" ∷ [])
      (execute slow limits "w" 1 none (target "a" ∷ target "b" ∷ []) fresh 5).0
execute-Reported_example =
    execute-Reported slow limits "w" 1 none (target "a") (target "b" ∷ []) fresh 5

-- An engine whose error has a number for its message makes the run raise.
abbrev odd : World
odd = record slow {
  chat = λ target eff t. (
    answered (record {
      body = field "error" (obj (field "message" (int (pos 7)) end)) end;
      status_code = 500;
    }),
    t + 2,
  );
}

execute_raises : (execute odd limits "w" 1 none (target "a" ∷ []) fresh 5).0 ≡ none
unfolding execute is_open lookup
execute_raises = refl

abbrev broken : CircuitBreaker
broken = record {
  threshold = 3;
  cooldown = 30;
  entries = ("w:a", record { fails = 3; opened_at = 4 }) ∷ [];
}

a_is_open : (is_open "w" "a" 5 broken).0 ≡ true
unfolding is_open lookup
a_is_open = refl

execute_every_open_example :
    (f : FallbackResult) × (execute slow limits "w" 1 none (target "a" ∷ []) broken 5
      ≡ (some f, broken, 5))
    × (f.result ≡ all_failed slow limits "w" 1)
    × (f.attempts ≡ skipped_all slow limits "w" 1 (target "a" ∷ []))
execute_every_open_example =
    execute_every_open slow limits "w" 1 none (target "a") [] broken 5 (a_is_open, tt)
