-- ===== src/RedisLimit/Tests.antt =====
-- The window of a server that counts.
use agnos_proxy_oss.Base.{ℕ, ◌+◌, ◌≤◌, refl, String, some, [], ◌∷◌, if◌then◌else◌, string_eq}
use agnos_proxy_oss.RedisLimit.{Server}
use agnos_proxy_oss.RedisLimit.Window.{Answers, passed, passed-le}

-- A server whose state is the counters.
abbrev counters : Server
counters = record {
  State = String → ℕ;
  incrby = λ k n s. (some (s k + n), λ j. s j + (if string_eq.beq j k then n else 0));
  expire = λ k t s. (some tt, s);
  digits = λ n. "7";
}

abbrev counters_answer : Answers counters
counters_answer = record {
  counter = λ s k. s k;
  incrby_value = λ k n s. refl;
  incrby_counter = λ k j n s. refl;
  expire_value = λ k t s. refl;
  expire_counter = λ k j t s. refl;
}

passed-le_example :
    passed counters counters_answer "w" 7 1 (some 100) (10 ∷ 10 ∷ 10 ∷ []) (λ k. 0) ≤ 2
passed-le_example =
    passed-le counters counters_answer "w" 7 1 (some 100) (10 ∷ 10 ∷ 10 ∷ []) (λ k. 0) refl
