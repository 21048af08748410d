-- ===== src/Breaker/Tests.antt =====
-- The breaker on a concrete run of failures.
use agnos_proxy_oss.Base.{◌-◌, ◌≡◌, [], ◌∷◌, leb, string_eq, arith}
use agnos_proxy_oss.Breaker.{CircuitBreaker, is_open}
use agnos_proxy_oss.Breaker.Trip.{fail_at, fail_at-is_open}

abbrev fresh : CircuitBreaker
fresh = record { threshold = 3; cooldown = 30; entries = [] }

fail_at-is_open_example :
    (is_open "w" "openai" 40 (fail_at "w" "openai" (10 ∷ 11 ∷ 12 ∷ []) fresh)).0 ≡ leb (40 - 12) 30
fail_at-is_open_example =
    fail_at-is_open "w" "openai" 10 (11 ∷ 12 ∷ []) 40 fresh (omega arith) (omega arith)

abbrev tripped : CircuitBreaker
tripped = fail_at "w" "openai" (10 ∷ 11 ∷ 12 ∷ []) fresh
