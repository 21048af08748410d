-- ===== src/Registry/Timeout.antt =====
-- The deadline of a provider target.
use agnos_proxy_oss.Base.{ℕ, suc, ◌≤◌, ◌≡◌, arith, Option-cases, false, ◌⊎◌, inl, inr}
use agnos_proxy_oss.Base.Json.{
  ℤ, pos, negsuc, Json, null, int, Fields, get_or_null, int_of, is_truthy, or_else,
}
use agnos_proxy_oss.Registry.{Settings, clamp, resolve_timeout_s, timeout_value}

clamp_bounds :
    (s : Settings) (v : ℤ) → 1 ≤ s.max_timeout_s → (1 ≤ clamp s v) × (clamp s v ≤ s.max_timeout_s)
clamp_bounds s (pos n) h = ground arith
clamp_bounds s (negsuc n) h = ground arith

timeout_value_bounds :
    (s : Settings) (raw : Json)
    → 1 ≤ s.max_timeout_s
    → (1 ≤ timeout_value s raw) × (timeout_value s raw ≤ s.max_timeout_s)
timeout_value_bounds s null h = clamp_bounds s (pos s.default_timeout_s) h
timeout_value_bounds s raw h = elim (Option-cases (int_of raw)) [
  | inl e ↦ ground (arith, clamp_bounds s (pos s.default_timeout_s) h)
  | inr (v, e) ↦ ground (arith, clamp_bounds s v h, clamp_bounds s (pos s.default_timeout_s) h)
]

-- Whatever the provider config holds, the deadline is at least a second and at most the ceiling.
pub resolve_timeout_s-bounds :
    (s : Settings) (cfg : Fields)
    → 1 ≤ s.max_timeout_s
    → (1 ≤ resolve_timeout_s s cfg) × (resolve_timeout_s s cfg ≤ s.max_timeout_s)
unfolding resolve_timeout_s
resolve_timeout_s-bounds s cfg h =
    timeout_value_bounds s
      (or_else (get_or_null "request_timeout_seconds" cfg)
        (get_or_null "default_request_timeout_in_seconds" cfg))
      h

-- A configured number of seconds within the ceiling is the deadline, under either of its names,
-- and the first name wins over the second.
pub resolve_timeout_s_configured :
    (s : Settings) (cfg : Fields) (n : ℕ)
    → suc n ≤ s.max_timeout_s
    → (get_or_null "request_timeout_seconds" cfg ≡ int (pos (suc n)))
      ⊎ ((is_truthy (get_or_null "request_timeout_seconds" cfg) ≡ false)
          × (get_or_null "default_request_timeout_in_seconds" cfg ≡ int (pos (suc n))))
    → resolve_timeout_s s cfg ≡ suc n
unfolding resolve_timeout_s
resolve_timeout_s_configured s cfg n h (inl e) = rw (e, or_else) (ground arith)
resolve_timeout_s_configured s cfg n h (inr (f, e)) = rw (f, e) (ground arith)
