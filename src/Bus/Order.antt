-- ===== src/Bus/Order.antt =====
-- What an observer is handed of what was submitted.
use agnos_proxy_oss.Base.{
  ℕ, suc, ◌+◌, ◌≤◌, ◌≡◌, refl, sym, ap, true, false, List, [], ◌∷◌, ◌++◌, leb, eqb, not, ◌&&◌,
  length, length-append, arith, Bool-cases, inl, inr, ◌⊎◌,
}
use mathlib.Core.Path.{subst}
use mathlib.Core.List.{append_assoc, append-nil}
use agnos_proxy_oss.Bus.{Worker, new_worker, is_full, replace_oldest, submit, take_first, turn}

-- What happens to a worker: an event is submitted, or its task has a turn.
pub data Step (Event : Type 0) : Type 0 where
  submitted : Event → Step Event
  turned : Step Event

more_room :
    (maxsize n m : ℕ)
    → m ≡ n + 1
    → (not (eqb maxsize 0) && leb maxsize n) ≡ false
    → n ≤ maxsize
    → (maxsize ≡ 0) ⊎ (m ≤ maxsize)
more_room maxsize n m same free small = ground arith

module _ {Event : Type 0} where
  abbrev pub run : List (Step Event) → Worker Event → Worker Event
  run [] w = w
  run (submitted e ∷ s) w = run s (submit e w)
  run (turned ∷ s) w = run s (turn w)

  abbrev pub events : List (Step Event) → List Event
  events [] = []
  events (submitted e ∷ s) = e ∷ events s
  events (turned ∷ s) = events s

  -- The first list is the second without some of its elements, the rest in their order.
  abbrev pub Sub : List Event → List Event → Type 0
  Sub [] ys = Unit
  Sub (x ∷ xs) [] = ⊥
  Sub (x ∷ xs) (y ∷ ys) = ((x ≡ y) × Sub xs ys) ⊎ Sub (x ∷ xs) ys

  Sub-weaken : (xs : List Event) (y : Event) (ys : List Event) → Sub xs ys → Sub xs (y ∷ ys)
  Sub-weaken [] y ys h = tt
  Sub-weaken (x ∷ xs) y ys h = inr h

  Sub-tail : (x : Event) (xs ys : List Event) → Sub (x ∷ xs) ys → Sub xs ys
  Sub-tail x xs [] h = absurd h
  Sub-tail x xs (y ∷ ys) (inl (same, h)) = Sub-weaken xs y ys h
  Sub-tail x xs (y ∷ ys) (inr h) = Sub-weaken xs y ys (Sub-tail x xs ys h)

  -- An element goes missing after a common front.
  Sub-without :
      (front : List Event) (x : Event) (xs ys : List Event)
      → Sub (front ++ (x ∷ xs)) ys
      → Sub (front ++ xs) ys
  Sub-without [] x xs ys h = Sub-tail x xs ys h
  Sub-without (f ∷ fs) x xs [] h = absurd h
  Sub-without (f ∷ fs) x xs (y ∷ ys) (inl (same, h)) = inl (same, Sub-without fs x xs ys h)
  Sub-without (f ∷ fs) x xs (y ∷ ys) (inr h) = inr (Sub-without (f ∷ fs) x xs ys h)

  Sub-extend : (xs ys : List Event) (e : Event) → Sub xs ys → Sub (xs ++ (e ∷ [])) (ys ++ (e ∷ []))
  Sub-extend [] [] e h = inl (refl, tt)
  Sub-extend [] (y ∷ ys) e h = inr (Sub-extend [] ys e tt)
  Sub-extend (x ∷ xs) [] e h = absurd h
  Sub-extend (x ∷ xs) (y ∷ ys) e (inl (same, h)) = inl (same, Sub-extend xs ys e h)
  Sub-extend (x ∷ xs) (y ∷ ys) e (inr h) = inr (Sub-extend (x ∷ xs) ys e h)

  -- What is known of a worker to which the events `ys` were submitted: what it has handed out and
  -- still has is `ys` without the dropped ones, and the queue keeps its size.
  abbrev pub Kept : List Event → ℕ → List Event → ℕ → List Event → Type 0
  Kept handed maxsize queue dropped ys =
      Sub (handed ++ queue) ys
      × (length handed + length queue + dropped ≡ length ys)
      × ((maxsize ≡ 0) ⊎ (length queue ≤ maxsize))

  abbrev pub Sound : List Event → Worker Event → Type 0
  Sound ys w = Kept w.handed w.maxsize w.queue w.dropped ys

  Sub-after :
      (handed queue ys : List Event) (e : Event)
      → Sub (handed ++ queue) ys
      → Sub (handed ++ (queue ++ (e ∷ []))) (ys ++ (e ∷ []))
  Sub-after handed queue ys e h =
      subst (λ l. Sub l (ys ++ (e ∷ []))) (append_assoc handed queue (e ∷ []))
        (Sub-extend (handed ++ queue) ys e h)

  -- The queue has room.
  appended-Kept :
      (handed : List Event) (maxsize : ℕ) (queue : List Event) (dropped : ℕ) (ys : List Event)
      (e : Event)
      → (not (eqb maxsize 0) && leb maxsize (length queue)) ≡ false
      → Kept handed maxsize queue dropped ys
      → Kept handed maxsize (queue ++ (e ∷ [])) dropped (ys ++ (e ∷ []))
  appended-Kept handed maxsize queue dropped ys e free (sub, count, room) =
      let q = length-append queue (e ∷ []) in
      let y = length-append ys (e ∷ []) in
      (
        Sub-after handed queue ys e sub,
        omega (arith, q, y, count),
        elim room [
          | inl none_set ↦ inl none_set
          | inr small ↦ more_room maxsize (length queue) _ q free small
        ],
      )

  -- The oldest event makes room.
  replaced-Kept :
      (handed : List Event) (maxsize : ℕ) (oldest : Event) (queue : List Event) (dropped : ℕ)
      (ys : List Event) (e : Event)
      → Kept handed maxsize (oldest ∷ queue) dropped ys
      → Kept handed maxsize (queue ++ (e ∷ [])) (suc dropped) (ys ++ (e ∷ []))
  replaced-Kept handed maxsize oldest queue dropped ys e (sub, count, room) =
      let q = length-append queue (e ∷ []) in
      let y = length-append ys (e ∷ []) in
      (
        Sub-after handed queue ys e (Sub-without handed oldest queue ys sub),
        omega (arith, q, y, count),
        elim room [ inl none_set ↦ inl none_set | inr small ↦ inr (omega (arith, q, small)) ],
      )

  replace_oldest-Sound :
      (q : List Event) (e : Event) (w : Worker Event) (ys : List Event)
      → (not (eqb w.maxsize 0) && leb w.maxsize (length q)) ≡ true
      → Kept w.handed w.maxsize q w.dropped ys
      → Sound (ys ++ (e ∷ [])) (replace_oldest q e w)
  replace_oldest-Sound [] e w ys full kept = absurd (ground arith)
  replace_oldest-Sound (oldest ∷ q) e w ys full kept =
      replaced-Kept w.handed w.maxsize oldest q w.dropped ys e kept

  submit-Sound :
      (e : Event) (w : Worker Event) (ys : List Event)
      → Sound ys w
      → Sound (ys ++ (e ∷ [])) (submit e w)
  unfolding submit
  submit-Sound e w ys kept = elim (Bool-cases (is_full w)) [
    | inr free ↦
        rw (submit, free) (appended-Kept w.handed w.maxsize w.queue w.dropped ys e free kept)
    | inl full ↦ rw (submit, full) (replace_oldest-Sound w.queue e w ys full kept)
  ]

  take_first-Sound :
      (q : List Event) (w : Worker Event) (ys : List Event)
      → w.queue ≡ q
      → Sound ys w
      → Sound ys (take_first q w)
  take_first-Sound [] w ys same kept = kept
  take_first-Sound (e ∷ q) w ys same (sub, count, room) =
      let h = length-append w.handed (e ∷ []) in
      let size : length w.queue ≡ suc (length q) = ap length same in
      (
        subst (λ l. Sub l ys) (sym (append_assoc w.handed (e ∷ []) q))
            (subst (λ l. Sub (w.handed ++ l) ys) same sub),
        omega (arith, h, count, size),
        elim room [ inl none_set ↦ inl none_set | inr small ↦ inr (omega (arith, small, size)) ],
      )

  run-Sound_from :
      (steps : List (Step Event)) (w : Worker Event) (ys : List Event)
      → Sound ys w
      → Sound (ys ++ events steps) (run steps w)
  unfolding turn
  run-Sound_from [] w ys kept = subst (λ l. Sound l w) (sym (append-nil ys)) kept
  run-Sound_from (submitted e ∷ s) w ys kept =
      subst (λ l. Sound l (run s (submit e w))) (append_assoc ys (e ∷ []) (events s))
        (run-Sound_from s (submit e w) (ys ++ (e ∷ [])) (submit-Sound e w ys kept))
  run-Sound_from (turned ∷ s) w ys kept =
      run-Sound_from s (turn w) ys (take_first-Sound w.queue w ys refl kept)

  -- Over any interleaving of submissions and turns of an observer's task: what the observer was
  -- handed, followed by what waits for it, is what was submitted, in its order, without some events;
  -- those are as many as the worker has counted as dropped; and a queue with a size never holds
  -- more than its size.
  pub run-Sound :
      (steps : List (Step Event)) (maxsize : ℕ)
      → Sound (events steps) (run steps (new_worker maxsize))
  run-Sound steps maxsize =
      run-Sound_from steps (new_worker maxsize) [] (tt, refl, inr (omega arith))
