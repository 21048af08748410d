-- ===== src/Validation/Deadline.antt =====
-- The timeout of a provider that passes the validation is the deadline of its requests.
use agnos_proxy_oss.Base.{
  ℕ, zero, suc, ◌≤◌, ◌≡◌, refl, sym, ap, ◌∙◌, String, Bool, true, false, Option, some, [], arith,
  Bool-cases, inl, inr, string_eq, not,
}
use agnos_proxy_oss.Base.Json.{
  ℤ, pos, negsuc, Json, null, bool, int, float, str, arr, obj, Fields, end, get_or_null, is_truthy,
  or_else, int_of,
}
use agnos_proxy_oss.Registry.{Settings, resolve_timeout_s, timeout_value, clamp}
use agnos_proxy_oss.Validation.Tenants.{attr}
use agnos_proxy_oss.Validation.Provider.{
  seconds_errors, timeout_errors, fields_of, validate_provider_in,
}
use agnos_proxy_oss.Validation.Accepted.{nil_parts}

seconds_errors-bounds :
    (ceiling n : ℕ) → seconds_errors ceiling (some (pos n)) ≡ [] → (1 ≤ n) × (n ≤ ceiling)
seconds_errors-bounds ceiling zero h = ground arith
seconds_errors-bounds ceiling (suc n) h = ground arith

unwritten : (n : ℕ) → int_of (str "") ≡ some (pos n) → ⊥
unfolding int_of
unwritten n h = ground arith

text_errors :
    (ceiling : ℕ) (s : String) (o : Option ℤ)
    → string_eq.beq s "" ≡ false
    → int_of (str s) ≡ o
    → timeout_errors ceiling (str s) ≡ seconds_errors ceiling o
unfolding timeout_errors
text_errors ceiling s o filled e = rw (filled, e) refl

-- A value that is written as a positive number is truthy.
timeout_errors-bounds :
    (ceiling n : ℕ) (v : Json)
    → timeout_errors ceiling v ≡ []
    → int_of v ≡ some (pos n)
    → (1 ≤ n) × (n ≤ ceiling) × (is_truthy v ≡ true)
unfolding timeout_errors int_of
timeout_errors-bounds ceiling n null h e = ground arith
timeout_errors-bounds ceiling n (bool b) h e = ground arith
timeout_errors-bounds ceiling n (int (pos zero)) h e = ground arith
timeout_errors-bounds ceiling n (int (pos (suc m))) h e =
    let (low, high) = seconds_errors-bounds ceiling (suc m) h in ground arith
timeout_errors-bounds ceiling n (int (negsuc m)) h e = ground arith
timeout_errors-bounds ceiling n (float m) h e = ground arith
timeout_errors-bounds ceiling n (str s) h e = elim (Bool-cases (string_eq.beq s "")) [
  | inl empty ↦ absurd (unwritten n (rw ((string_eq.beq_iff s "").0 empty) at e))
  | inr filled ↦
      let (low, high) =
        seconds_errors-bounds ceiling n (sym (text_errors ceiling s (some (pos n)) filled e) ∙ h) in
      (low, high, rw filled refl)
]
timeout_errors-bounds ceiling n (arr xs) h e = ground arith
timeout_errors-bounds ceiling n (obj d) h e = ground arith

clamp_within : (s : Settings) (n : ℕ) → 1 ≤ n → n ≤ s.max_timeout_s → clamp s (pos n) ≡ n
clamp_within s n low high = ground arith

timeout_value_text :
    (s : Settings) (n : ℕ) (u : String)
    → int_of (str u) ≡ some (pos n)
    → string_eq.beq u "" ≡ false
    → timeout_value s (str u) ≡ clamp s (pos n)
timeout_value_text s n u h filled = rw (filled, h) refl

filled_text : (b : Bool) → not b ≡ true → b ≡ false
filled_text true h = ground arith
filled_text false h = refl

timeout_value_written :
    (s : Settings) (n : ℕ) (v : Json)
    → int_of v ≡ some (pos n)
    → is_truthy v ≡ true
    → timeout_value s v ≡ clamp s (pos n)
unfolding int_of
timeout_value_written s n null h t = ground arith
timeout_value_written s n (bool b) h t = ground arith
timeout_value_written s n (int m) h t = ground arith
timeout_value_written s n (float m) h t = ground arith
timeout_value_written s n (str u) h t =
    timeout_value_text s n u h (filled_text (string_eq.beq u "") t)
timeout_value_written s n (arr xs) h t = ground arith
timeout_value_written s n (obj d) h t = ground arith

or_else_truthy : (v w : Json) → is_truthy v ≡ true → or_else v w ≡ v
or_else_truthy v w h = rw h refl

-- A body of a provider that passes the validation and has its timeout written as a number: that
-- number of seconds is between 1 and the ceiling, and it is the deadline that the registry gives
-- to the provider's targets.
pub validate_provider_in-resolve_timeout_s :
    (s : Settings) (p : String) (body : Fields) (n : ℕ)
    → validate_provider_in s.max_timeout_s p body ≡ []
    → let config = fields_of (attr "config" (obj end) body) in
      int_of (get_or_null "request_timeout_seconds" config) ≡ some (pos n)
      → (1 ≤ n)
        × (n ≤ s.max_timeout_s)
        × (resolve_timeout_s s (fields_of (attr "config" (obj end) body)) ≡ n)
unfolding validate_provider_in resolve_timeout_s
validate_provider_in-resolve_timeout_s s p body n h e =
    let config = fields_of (attr "config" (obj end) body) in
    let v = get_or_null "request_timeout_seconds" config in
    let (others, timed) = nil_parts _ (timeout_errors s.max_timeout_s v) h in
    let (low, high, truthy_value) = timeout_errors-bounds s.max_timeout_s n v timed e in
    let first =
      or_else_truthy v (get_or_null "default_request_timeout_in_seconds" config) truthy_value in
    (
      low,
      high,
      ap (timeout_value s) first
          ∙ timeout_value_written s n v e truthy_value
          ∙ clamp_within s n low high,
    )
