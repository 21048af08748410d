-- ===== src/RateLimit/Admission.antt =====
-- How many requests `RateLimiter.check` lets through for one workspace and alias.
use agnos_proxy_oss.Base.{
  ℕ, suc, ◌+◌, ◌-◌, ◌*◌, ◌≤◌, ◌≡◌, refl, List, [], ◌∷◌, arith, Option, none, some, String,
  string_eq, ◌∙◌, ◌<>◌, if◌then◌else◌,
}
use agnos_proxy_oss.Base.Dict.{lookup, lookup-insert_self}
use agnos_proxy_oss.RateLimit.{
  Kind, Bucket, Store, Limiter, Limits, take, scale, full_bucket, bucket, draw, check_rpm,
  check_tpm, check_scope, check,
}
use agnos_proxy_oss.RateLimit.Bounds.{Call, Ascends, drain, drain-le, take_fields}

abbrev count_of : Option (Kind × ℕ) → ℕ
count_of none = 1
count_of (some _) = 0

-- The number of requests that are let through; each has its time and its token estimate.
pub admitted : String → String → Limits → List Call → Limiter → ℕ
admitted ws alias q [] l = 0
admitted ws alias q ((now, est) ∷ calls) l =
    let (r, l') = check ws alias q est now l in count_of r + admitted ws alias q calls l'

-- The time of the last request.
abbrev pub last_time : ℕ → List Call → ℕ
last_time t [] = t
last_time t ((now, est) ∷ calls) = last_time now calls

-- What the requests ask of the bucket that counts them.
asks : List Call → List Call
asks [] = []
asks ((now, est) ∷ calls) = (now, 1 * scale) ∷ asks calls

asks-Ascends : (t : ℕ) (calls : List Call) → Ascends t calls → Ascends t (asks calls)
unfolding asks
asks-Ascends t [] h = tt
asks-Ascends t ((now, est) ∷ calls) (h, hs) = (h, asks-Ascends now calls hs)

last_time-drain :
    (calls : List Call) (b : Bucket) → (drain (asks calls) b).1.last ≡ last_time b.last calls
unfolding drain asks
last_time-drain [] b = refl
last_time-drain ((now, est) ∷ calls) b =
    let (l, _, _) = take_fields now (1 * scale) b in
    last_time-drain calls (take now (1 * scale) b).1 ∙ rw l refl

module _ (ws alias : String) (m : ℕ) (tpm : Option ℕ) where
  abbrev key : String
  key = ws <> ":" <> alias

  abbrev quota : Limits
  quota = record { rpm = some (suc m); tpm = tpm }

  -- The bucket of the request count after one check.
  check-bucket :
      (now est : ℕ) (l : Limiter)
      → let b = bucket l.rpm key (suc m) now in
        (lookup key (check ws alias quota est now l).1.rpm ≡ some (take now (1 * scale) b).1)
        × (count_of (check ws alias quota est now l).0
            ≤ (if (take now (1 * scale) b).0 then 1 else 0))
  unfolding check check_scope draw check_rpm check_tpm
  check-bucket now est l =
      let b = (take now (1 * scale) (bucket l.rpm key (suc m) now)).1 in
      ground (arith, lookup-insert_self key b l.rpm)

  bucket-stored :
      (now : ℕ) (s : Store) (b : Bucket)
      → lookup key s ≡ some b
      → b.capacity ≡ suc m * scale
      → bucket s key (suc m) now ≡ b
  unfolding bucket
  bucket-stored now s b e c = ground arith

  admitted-drain :
      (calls : List Call) (l : Limiter) (b : Bucket)
      → lookup key l.rpm ≡ some b
      → b.capacity ≡ suc m * scale
      → admitted ws alias quota calls l * scale ≤ (drain (asks calls) b).0
  unfolding admitted drain asks
  admitted-drain [] l b e c = omega arith
  admitted-drain ((now, est) ∷ calls) l b e c =
      let (_, _, same) = take_fields now (1 * scale) b in
      let (stored, counted) = rw (bucket-stored now l.rpm b e c) at (check-bucket now est l) in
      let ih =
        admitted-drain calls (check ws alias quota est now l).1 (take now (1 * scale) b).1 stored
          (same ∙ c) in
      ground arith

  -- The bucket that a first request meets.
  fresh_bucket :
      (now : ℕ) (s : Store)
      → lookup key s ≡ none
      → bucket s key (suc m) now ≡ full_bucket (suc m) now
  unfolding bucket
  fresh_bucket now s e = rw (e, bucket) refl

  admitted-drain_fresh :
      (t est : ℕ) (calls : List Call) (l : Limiter)
      → lookup key l.rpm ≡ none
      → admitted ws alias quota ((t, est) ∷ calls) l * scale
        ≤ (drain (asks ((t, est) ∷ calls)) (full_bucket (suc m) t)).0
  unfolding admitted drain asks
  admitted-drain_fresh t est calls l fresh =
      let b = full_bucket (suc m) t in
      let (stored, counted) = rw (fresh_bucket t l.rpm fresh) at (check-bucket t est l) in
      let (_, _, same) = take_fields t (1 * scale) b in
      let rest =
        admitted-drain calls (check ws alias quota est t l).1 (take t (1 * scale) b).1 stored
          same in
      ground arith

  -- From the first request for a key on, a limit of m + 1 requests a minute lets through at most
  -- m + 1 requests and the refill of the time between the first and the last of them, whatever
  -- the token estimates are and whatever the token limit refuses.
  pub admitted-le :
      (t est : ℕ) (calls : List Call) (l : Limiter)
      → lookup key l.rpm ≡ none
      → Ascends t calls
      → admitted ws alias quota ((t, est) ∷ calls) l * scale
        ≤ suc m * scale + (last_time t calls - t) * suc m
  admitted-le t est calls l fresh h =
      let b = full_bucket (suc m) t in
      let all_calls = (t, est) ∷ calls in
      let counted = admitted-drain_fresh t est calls l fresh in
      let bound =
        rw (last_time-drain all_calls b) at
          (drain-le (asks all_calls) b (omega arith) (asks-Ascends t all_calls (omega arith, h))) in
      omega arith
