-- ===== src/RateLimit/Bounds.antt =====
-- What a token bucket lets through.
use agnos_proxy_oss.Base.{
  ℕ, ◌+◌, ◌-◌, ◌*◌, ◌≤◌, ◌<◌, ◌≡◌, refl, true, false, List, [], ◌∷◌, arith, leb, if◌then◌else◌, ⊤,
}
use agnos_proxy_oss.RateLimit.{Bucket, refilled, take}

-- A bucket never holds more than its capacity.
abbrev pub IsValid : Bucket → Type 0
IsValid b = b.tokens ≤ b.capacity

-- Calls of `take`, each with its time and its amount.
abbrev pub Call : Type 0
Call = ℕ × ℕ

-- The clock does not run backwards.
abbrev pub Ascends : ℕ → List Call → Type 0
Ascends t [] = ⊤
Ascends t ((now, n) ∷ calls) = (t ≤ now) × Ascends now calls

-- The units that a series of calls is granted, and the bucket that it leaves.
unfoldable pub drain : List Call → Bucket → ℕ × Bucket
drain [] b = (0, b)
drain ((now, n) ∷ calls) b =
    let (granted, b') = take now n b in
    let (total, b'') = drain calls b' in ((if granted then n else 0) + total, b'')

mul_sub : (t u r : ℕ) → t ≤ u → (u - t) * r + t * r ≡ u * r
mul_sub t u r h = grind arith

-- One call: what is granted comes out of the tokens and the refill since the last call.
take_step :
    (now n : ℕ) (b : Bucket)
    → b.last ≤ now
    → (if (take now n b).0 then n else 0) + (take now n b).1.tokens + b.last * b.refill
      ≤ b.tokens + now * b.refill
unfolding take refilled
take_step now n b h = ground (arith, mul_sub b.last now b.refill h)

pub take_fields :
    (now n : ℕ) (b : Bucket)
    → ((take now n b).1.last ≡ now)
      × ((take now n b).1.refill ≡ b.refill)
      × ((take now n b).1.capacity ≡ b.capacity)
unfolding take refilled
take_fields now n b = ground arith

drain_bound :
    (calls : List Call) (b : Bucket)
    → Ascends b.last calls
    → (drain calls b).0 + (drain calls b).1.tokens + b.last * b.refill
      ≤ b.tokens + (drain calls b).1.last * b.refill
unfolding drain
drain_bound [] b h = omega arith
drain_bound ((now, n) ∷ calls) b (h, hs) =
    let b' = (take now n b).1 in
    let (l, r, c) = take_fields now n b in
    let ih = drain_bound calls b' (rw l hs) in
    let step = take_step now n b h in
    let e : b'.last * b'.refill ≡ now * b.refill = rw (l, r) refl in
    let f : (drain calls b').1.last * b'.refill ≡ (drain calls b').1.last * b.refill = rw r refl in
    omega arith

drain_last :
    (calls : List Call) (b : Bucket) → Ascends b.last calls → b.last ≤ (drain calls b).1.last
unfolding drain
drain_last [] b h = omega arith
drain_last ((now, n) ∷ calls) b (h, hs) =
    let (l, r, c) = take_fields now n b in
    let ih = drain_last calls (take now n b).1 (rw l hs) in omega arith

-- Whatever the calls ask for, what a bucket grants between its last use and the last call is at
-- most its capacity and the refill of that time.
pub drain-le :
    (calls : List Call) (b : Bucket)
    → IsValid b
    → Ascends b.last calls
    → (drain calls b).0 ≤ b.capacity + ((drain calls b).1.last - b.last) * b.refill
drain-le calls b v h =
    let bound = drain_bound calls b h in
    let m = mul_sub b.last (drain calls b).1.last b.refill (drain_last calls b h) in omega arith

-- A call keeps the bucket within its capacity. It is granted exactly when the refilled bucket
-- holds the amount, which it then loses; a refused call takes nothing.
pub take-IsValid :
    (now n : ℕ) (b : Bucket)
    → IsValid (take now n b).1
      × ((take now n b).0 ≡ leb n (refilled now b).tokens)
      × ((take now n b).1.tokens + (if (take now n b).0 then n else 0) ≡ (refilled now b).tokens)
unfolding take refilled
take-IsValid now n b = ground arith

-- After a refusal, a call for the same amount is granted as soon as the refill of the time gone by
-- covers what was missing, if the amount fits into the bucket at all.
pub take_after_refusal :
    (now later n : ℕ) (b : Bucket)
    → n ≤ b.capacity
    → (take now n b).0 ≡ false
    → n - (take now n b).1.tokens ≤ (later - now) * b.refill
    → (take later n (take now n b).1).0 ≡ true
unfolding take refilled
take_after_refusal now later n b fits refused waited = ground arith

-- An amount above the capacity is refused at all times, after any calls.
pub take_oversized :
    (calls : List Call) (now n : ℕ) (b : Bucket)
    → b.capacity < n
    → (take now n (drain calls b).1).0 ≡ false
unfolding drain
take_oversized [] now n b h = unfold take refilled in (ground arith)
take_oversized ((t, m) ∷ calls) now n b h =
    let (l, r, c) = take_fields t m b in take_oversized calls now n (take t m b).1 (omega arith)
