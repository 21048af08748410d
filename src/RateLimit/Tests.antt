-- ===== src/RateLimit/Tests.antt =====
-- The limiter on concrete buckets and requests.
use agnos_proxy_oss.Base.{
  ◌+◌, ◌-◌, ◌*◌, ◌≤◌, ◌≡◌, refl, true, false, none, some, List, [], ◌∷◌, ◌++◌, arith,
}
use agnos_proxy_oss.Base.Dict.{lookup, insert}
use agnos_proxy_oss.RateLimit.{
  Bucket, Limiter, Request, refilled, take, scale, workspace_scope, rpm_kind, refused, allowed,
  check_multi_scope, check_scope, check_rpm, check_tpm, seconds_until,
}
use agnos_proxy_oss.RateLimit.Bounds.{take_after_refusal}
use agnos_proxy_oss.RateLimit.Order.{
  Dimension, plan, charge, charge_all, check_multi_scope-eq-charge_all, check_multi_scope-refused,
}
use agnos_proxy_oss.RateLimit.Admission.{admitted, admitted-le}

abbrev small : Bucket
small = record { capacity = 10; tokens = 4; refill = 2; last = 100 }

refusal : (take 100 6 small).0 ≡ false
unfolding take refilled
refusal = refl

missing : 6 - (take 100 6 small).1.tokens ≤ (101 - 100) * 2
unfolding take refilled
missing = omega arith

take_after_refusal_example : (take 101 6 (take 100 6 small).1).0 ≡ true
take_after_refusal_example = take_after_refusal 100 101 6 small (omega arith) refusal missing

abbrev empty : Limiter
empty = record { rpm = []; tpm = [] }

abbrev one_a_minute : Request
one_a_minute = record {
  client_id = none;
  workspace_id = "w";
  user_id = none;
  alias = "fast";
  client_rl = none;
  workspace_rl = some (record { limits = record { rpm = some 1; tpm = none }; user = none });
  model_quota = none;
  est_tokens = 10;
}

check_multi_scope-eq-charge_all_example :
    check_multi_scope one_a_minute 5 empty ≡ charge_all (plan one_a_minute) 5 empty
check_multi_scope-eq-charge_all_example = check_multi_scope-eq-charge_all one_a_minute 5 empty

-- The limiter after one request, and after a second one.
abbrev once : Limiter
once = (check_multi_scope one_a_minute 5 empty).1

abbrev twice : Limiter
twice = (check_multi_scope one_a_minute 5 once).1

second_refused :
    check_multi_scope one_a_minute 5 once ≡ (refused workspace_scope rpm_kind 600, twice)
unfolding check_multi_scope check_scope check_rpm lookup check_tpm insert seconds_until
second_refused = refl

check_multi_scope-refused_example :
    (before : List Dimension) × (d : Dimension) × (after : List Dimension) × (mid : Limiter) × (plan
        one_a_minute
      ≡ before ++ (d ∷ after))
    × (d.scope ≡ workspace_scope)
    × (d.kind ≡ rpm_kind)
    × (charge_all before 5 once ≡ (allowed, mid))
    × (charge d 5 mid ≡ (some 600, twice))
check_multi_scope-refused_example =
    check_multi_scope-refused one_a_minute 5 once twice workspace_scope rpm_kind 600 second_refused

admitted-le_example :
    admitted "w" "fast" (record { rpm = some 3; tpm = none }) ((5, 1) ∷ (5, 1) ∷ (6, 1) ∷ []) empty
      * scale
    ≤ 3 * scale + (6 - 5) * 3
unfolding lookup
admitted-le_example =
    admitted-le "w" "fast" 2 none 5 1 ((5, 1) ∷ (6, 1) ∷ []) empty refl
      (omega arith, (omega arith, tt))
