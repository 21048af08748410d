-- ===== src/Chunker/Budget.antt =====
-- What is left of a conversation, and that it fits.
use agnos_proxy_oss.Base.{
  ℕ, String, ◌+◌, ◌≤◌, ◌<◌, ◌≡◌, ◌⊎◌, inl, inr, refl, sym, ap, ◌∙◌, true, false, List, [], ◌∷◌,
  ◌++◌, not, leb, keep, arith, Bool-cases,
}
use mathlib.Core.Path.{subst}
use mathlib.Core.List.{
  reverse, reverse-cons, reverse-append, reverse-reverse, append_assoc, append-nil,
}
use agnos_proxy_oss.Chunker.{
  Message, is_system, safety_margin, count_message_tokens, keep_last, apply_truncation,
}

module _ (encode : String → ℕ) where
  count-append :
      (xs ys : List Message)
      → count_message_tokens encode (xs ++ ys)
        ≡ count_message_tokens encode xs + count_message_tokens encode ys
  unfolding count_message_tokens
  count-append [] ys = omega arith
  count-append (x ∷ xs) ys = omega (arith, count-append xs ys)

  count-reverse :
      (xs : List Message)
      → count_message_tokens encode (reverse xs) ≡ count_message_tokens encode xs
  unfolding count_message_tokens
  count-reverse [] = refl
  count-reverse (x ∷ xs) =
      rw (reverse-cons x xs, count-append (reverse xs) (x ∷ [])) (omega (arith, count-reverse xs))

  -- The next message does not fit beside `used` tokens.
  abbrev pub NoRoom : ℕ → ℕ → List Message → Type 0
  NoRoom window used [] = Unit
  NoRoom window used (m ∷ ms) = window < used + count_message_tokens encode (m ∷ []) + safety_margin

  NoRoom-eq : (window a b : ℕ) (ms : List Message) → a ≡ b → NoRoom window a ms → NoRoom window b ms
  NoRoom-eq window a b ms same h = subst (λ n. NoRoom window n ms) same h

  count_none : count_message_tokens encode [] ≡ 0
  unfolding count_message_tokens
  count_none = refl

  no_room :
      (window used c : ℕ)
      → leb (used + c + safety_margin) window ≡ false
      → window < used + count_message_tokens encode [] + c + safety_margin
  no_room window used c h = ground (arith, count_none)

  keep_last_none :
      (window used : ℕ) (kept : List Message) → keep_last encode window used [] kept ≡ kept
  unfolding keep_last
  keep_last_none window used kept = refl

  -- What the loop takes of the messages, newest first.
  abbrev Taken : ℕ → ℕ → List Message → List Message → List Message → Type 0
  Taken window used ms kept result =
      (taken : List Message) × (rest : List Message) × (result ≡ reverse taken ++ kept)
      × (ms ≡ taken ++ rest)
      × ((taken ≡ []) ⊎ (used + count_message_tokens encode taken + safety_margin ≤ window))
      × NoRoom window (used + count_message_tokens encode taken) rest

  keep_last_stop :
      (window used : ℕ) (m : Message) (ms kept : List Message)
      → leb (used + count_message_tokens encode (m ∷ []) + safety_margin) window ≡ false
      → keep_last encode window used (m ∷ ms) kept ≡ kept
  unfolding keep_last
  keep_last_stop window used m ms kept full = rw (keep_last, full) refl

  keep_last_more :
      (window used : ℕ) (m : Message) (ms kept : List Message)
      → leb (used + count_message_tokens encode (m ∷ []) + safety_margin) window ≡ true
      → keep_last encode window used (m ∷ ms) kept
        ≡ keep_last encode window (used + count_message_tokens encode (m ∷ [])) ms (m ∷ kept)
  unfolding keep_last
  keep_last_more window used m ms kept fits = rw (keep_last, fits) refl

  Taken-cons :
      (window used : ℕ) (m : Message) (ms kept result : List Message)
      → leb (used + count_message_tokens encode (m ∷ []) + safety_margin) window ≡ true
      → Taken window (used + count_message_tokens encode (m ∷ [])) ms (m ∷ kept) result
      → Taken window used (m ∷ ms) kept result
  Taken-cons window used m ms kept result fits (taken, rest, same, split, within, full) =
      let c = count_message_tokens encode (m ∷ []) in
      let size : count_message_tokens encode (m ∷ taken) ≡ c + count_message_tokens encode taken =
        count-append (m ∷ []) taken in
      (
        m ∷ taken,
        rest,
        same ∙ rw (reverse-cons m taken, append_assoc (reverse taken) (m ∷ []) kept) refl,
        ap (λ l. m ∷ l) split,
        inr (elim within [
          | inl nothing ↦
              let none_more : count_message_tokens encode taken ≡ 0 = rw nothing count_none in
              ground (arith, size, none_more, fits)
          | inr inside ↦ omega (arith, size, inside)
        ]),
        NoRoom-eq window _ _ rest (omega (arith, size)) full,
      )

  keep_last-Taken :
      (window used : ℕ) (ms kept : List Message)
      → Taken window used ms kept (keep_last encode window used ms kept)
  keep_last-Taken window used [] kept =
      ([], [], keep_last_none window used kept, refl, inl refl, tt)
  keep_last-Taken window used (m ∷ ms) kept =
      let c = count_message_tokens encode (m ∷ []) in
      elim (Bool-cases (leb (used + c + safety_margin) window)) [
        | inr full ↦ (
          [],
          m ∷ ms,
          keep_last_stop window used m ms kept full,
          refl,
          inl refl,
          no_room window used c full,
        )
        | inl fits ↦ rw (keep_last_more window used m ms kept fits) (
            Taken-cons window used m ms kept _ fits
              (keep_last-Taken window (used + c) ms (m ∷ kept)))
      ]

  apply_truncation_over :
      (messages : List Message) (window : ℕ)
      → window < count_message_tokens encode messages + safety_margin
      → let others = keep (λ m. not (is_system m)) messages in
        let system = keep is_system messages in
        (apply_truncation encode messages window).0
        ≡ system ++ keep_last encode window (count_message_tokens encode system) (reverse others) []
  unfolding apply_truncation
  apply_truncation_over messages window over =
      let long : leb (count_message_tokens encode messages + safety_margin) window ≡ false =
        ground arith in
      rw long refl

  -- A conversation over the budget keeps every system message and the newest of the others: these
  -- are a suffix of the others, as long as fits, and all that is sent fits into the window with the
  -- safety margin unless only system messages are left.
  pub apply_truncation-over :
      (messages : List Message) (window : ℕ)
      → window < count_message_tokens encode messages + safety_margin
      → let others = keep (λ m. not (is_system m)) messages in
        let system = keep is_system messages in
        let sent = (apply_truncation encode messages window).0 in
        let used = count_message_tokens encode sent in
        (older : List Message) × (kept : List Message) × (others ≡ reverse older ++ kept)
        × (sent ≡ system ++ kept)
        × ((kept ≡ []) ⊎ (used + safety_margin ≤ window))
        × NoRoom window used older
  apply_truncation-over messages window over =
      let others = keep (λ m. not (is_system m)) messages in
      let system = keep is_system messages in
      let used = count_message_tokens encode system in
      let (taken, rest, same, split, within, full) =
        keep_last-Taken window used (reverse others) [] in
      let kept = reverse taken in
      let sent =
        apply_truncation_over messages window over
        ∙ ap (λ l. system ++ l) (same ∙ append-nil kept) in
      let size : used + count_message_tokens encode taken
          ≡ count_message_tokens encode (apply_truncation encode messages window).0 =
        sym (
          ap (count_message_tokens encode) sent
          ∙ count-append system kept
          ∙ ap (λ n. used + n) (count-reverse taken)) in
      (
        rest,
        kept,
        sym (reverse-reverse others) ∙ ap reverse split ∙ reverse-append taken rest,
        sent,
        elim within [
          | inl nothing ↦ inl (ap reverse nothing)
          | inr inside ↦ inr (omega (arith, size, inside))
        ],
        NoRoom-eq window _ _ rest size full,
      )
