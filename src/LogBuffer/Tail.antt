-- ===== src/LogBuffer/Tail.antt =====
-- What the ring of log lines holds.
use agnos_proxy_oss.Base.{
  ℕ, zero, suc, ◌≡◌, ◌≤◌, refl, sym, ap, ◌∙◌, String, Bool, true, false, ◌⊎◌, inl, inr, List, [],
  ◌∷◌, ◌++◌, ltb, length, length-append, min, ◌-◌, arith, Bool-cases, ltb→lt,
}
use mathlib.Core.Path.{subst}
use mathlib.Core.List.{append_assoc, append-nil}
use agnos_proxy_oss.LogBuffer.{
  Line, Log, empty_log, max_lines, append, fanout, record_line, fan_first, turn, subscribe,
  unsubscribe, without_first, drop, snapshot,
}

-- The calls of the module, in the order in which they happen.
pub data Step : Type 0 where
  recorded : Bool → ℕ → String → String → String → Step
  turned : Step
  subscribed : Step
  unsubscribed : ℕ → Step

abbrev pub step : Step → Log → Log
step (recorded h now msg level source) g = record_line h now msg level source g
step turned g = turn g
step subscribed g = subscribe g
step (unsubscribed n) g = unsubscribe n g

abbrev pub run : List Step → Log → Log
run [] g = g
run (s ∷ ss) g = run ss (step s g)

abbrev numbered : ℕ → ℕ → String → String → String → Line
numbered n now msg level source = record {
  seq = suc n;
  ts = now;
  level = level;
  source = source;
  msg = msg;
}

-- The lines that were recorded, numbered from n + 1 on.
abbrev pub lines_from : ℕ → List Step → List Line
lines_from n [] = []
lines_from n (recorded h now msg level source ∷ ss) =
    numbered n now msg level source ∷ lines_from (suc n) ss
lines_from n (turned ∷ ss) = lines_from n ss
lines_from n (subscribed ∷ ss) = lines_from n ss
lines_from n (unsubscribed k ∷ ss) = lines_from n ss

-- The ring holds the last lines: all of them, or as many as it has room for.
abbrev pub IsTail : ℕ → List Line → List Line → Type 0
IsTail bound all buf =
    (older : List Line) × (all ≡ older ++ buf)
    × (length buf ≤ bound)
    × ((older ≡ []) ⊎ (length buf ≡ bound))

-- A full ring gives its first line up for the new one.
append_full :
    (bound : ℕ) (all older buf : List Line) (r : Line)
    → all ≡ older ++ buf
    → length buf ≡ suc bound
    → IsTail (suc bound) (all ++ (r ∷ [])) (without_first buf ++ (r ∷ []))
append_full bound all older (b ∷ buf) r eq full = (
  older ++ (b ∷ []),
  rw (eq, append_assoc older (b ∷ buf) (r ∷ []), append_assoc older (b ∷ []) (buf ++ (r ∷ [])))
      refl,
  omega (arith, length-append buf (r ∷ [])),
  inr (omega (arith, length-append buf (r ∷ []))),
)
append_full bound all older [] r eq full = ground arith

append-IsTail :
    (bound : ℕ) (all buf : List Line) (r : Line)
    → IsTail (suc bound) all buf
    → IsTail (suc bound) (all ++ (r ∷ [])) (append (suc bound) buf r)
unfolding append
append-IsTail bound all buf r (older, eq, le, full) =
    elim (Bool-cases (ltb (length buf) (suc bound))) [
      | inl e ↦ rw e (
        older,
        rw (eq, append_assoc older buf (r ∷ [])) refl,
        omega (arith, length-append buf (r ∷ []), ltb→lt (length buf) (suc bound) e),
        elim full [ inl h ↦ inl h | inr h ↦ ground arith ],
      )
      | inr e ↦ rw e (append_full bound all older buf r eq (ground arith))
    ]

-- A turn of the loop changes the queues alone.
turn_same : (g : Log) → ((turn g).seq ≡ g.seq) × ((turn g).buf ≡ g.buf)
unfolding turn fanout
turn_same g = go g.waiting g
  where
    go :
        (rs : List Line) (g : Log) → ((fan_first rs g).seq ≡ g.seq) × ((fan_first rs g).buf ≡ g.buf)
    go [] g = (refl, refl)
    go (r ∷ rs) g = (refl, refl)

run-IsTail :
    (steps : List Step) (g : Log) (all : List Line) (n : ℕ)
    → g.seq ≡ n
    → IsTail max_lines all g.buf
    → IsTail max_lines (all ++ lines_from n steps) (run steps g).buf
unfolding record_line fanout subscribe unsubscribe
run-IsTail [] g all n e h = rw (append-nil all) h
run-IsTail (recorded true now msg level source ∷ ss) g all n e h =
    let r = numbered g.seq now msg level source in
    rw (← e) (
      subst (λ ls. IsTail max_lines ls (run ss (record_line true now msg level source g)).buf)
        (append_assoc all (r ∷ []) (lines_from (suc g.seq) ss))
        (run-IsTail ss (record_line true now msg level source g) (all ++ (r ∷ [])) (suc g.seq) refl
          (append-IsTail 799 all g.buf r h)))
run-IsTail (recorded false now msg level source ∷ ss) g all n e h =
    let r = numbered g.seq now msg level source in
    rw (← e) (
      subst (λ ls. IsTail max_lines ls (run ss (record_line false now msg level source g)).buf)
        (append_assoc all (r ∷ []) (lines_from (suc g.seq) ss))
        (run-IsTail ss (record_line false now msg level source g) (all ++ (r ∷ [])) (suc g.seq) refl
          (append-IsTail 799 all g.buf r h)))
run-IsTail (turned ∷ ss) g all n e h =
    run-IsTail ss (turn g) all n ((turn_same g).0 ∙ e) (rw ((turn_same g).1) h)
run-IsTail (subscribed ∷ ss) g all n e h = run-IsTail ss (subscribe g) all n e h
run-IsTail (unsubscribed k ∷ ss) g all n e h = run-IsTail ss (unsubscribe k g) all n e h

-- A list is a front of k lines and the rest.
drop_split :
    (k : ℕ) (xs : List Line)
    → (front : List Line) × (xs ≡ front ++ drop k xs)
      × (length (drop k xs) ≡ length xs - k)
      × ((front ≡ []) ⊎ (1 ≤ k))
drop_split zero xs = ([], refl, omega arith, inl refl)
drop_split (suc k) [] = ([], refl, omega arith, inl refl)
drop_split (suc k) (x ∷ xs) =
    let rest = drop_split k xs in
    (x ∷ rest.0, ap (λ ys. x ∷ ys) (rest.1), omega (arith, rest.2), inr (omega arith))

-- The last lines of the ring are the last lines of all.
drop-IsTail :
    (limit bound : ℕ) (all buf : List Line)
    → IsTail bound all buf
    → IsTail (min (suc limit) bound) all (drop (length buf - suc limit) buf)
drop-IsTail limit bound all buf (older, eq, le, full) =
    let (front, split, size, why) = drop_split (length buf - suc limit) buf in
    (
      older ++ front,
      eq
          ∙ ap (λ ls. older ++ ls) split
          ∙ sym (append_assoc older front (drop (length buf - suc limit) buf)),
      omega arith,
      elim why [
        | inr some_off ↦ inr (omega arith)
        | inl no_front ↦ elim full [
          | inl no_older ↦ inl (rw (no_front, no_older) refl)
          | inr e ↦ inr (omega arith)
        ]
      ],
    )

-- After any calls of the module, in any order and with any turns of the event loop between them, a
-- snapshot of one or more lines gives the last lines that were recorded, in their order and
-- numbered from 1 without a gap: all of them, or as many as the smaller of the limit and 800.
pub run-snapshot :
    (steps : List Step) (limit : ℕ)
    → IsTail
        (min (suc limit) max_lines)
        (lines_from 0 steps)
        (snapshot (suc limit) (run steps empty_log))
unfolding snapshot
run-snapshot steps limit =
    drop-IsTail limit max_lines (lines_from 0 steps) (run steps empty_log).buf
      (run-IsTail steps empty_log [] 0 refl ([], refl, omega arith, inl refl))
