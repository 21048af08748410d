-- ===== src/Pricing/Resolve.antt =====
-- Which price a model gets.
use agnos_proxy_oss.Base.{
  ℕ, ◌≤◌, ◌≡◌, ◌⊎◌, refl, sym, Bool, true, Option, none, some, List, [], ◌∷◌, ◌&&◌, not,
  if◌then◌else◌, ◌==◌, list_eq, nat_eq, length, is_empty, arith, All, Bool-cases, Option-cases, inl,
  inr, ==_refl,
}
use mathlib.Core.Path.{subst}
use agnos_proxy_oss.Base.Dict.{lookup, lookup-insert_self}
use agnos_proxy_oss.Base.Text.{Text, lower, occurs}
use agnos_proxy_oss.Pricing.{
  Price, Table, Prices, Source, override, no_source, is_longer, best_key, by_substring, tables,
  resolve, set_override,
}

-- A key that the id contains.
abbrev pub matches : Text → Text → Bool
matches mid key = not (is_empty key) && occurs key mid

abbrev pub size : Option Text → ℕ
size none = 0
size (some k) = length k

-- No key of a table that the id contains is longer than the best one.
abbrev pub NoneLonger : Text → Table → Option Text → Type 0
NoneLonger mid t best = All (λ e. matches mid e.0 ≡ true → length e.0 ≤ size best) t

-- The best key after one entry.
abbrev better : Text → Text → Option Text → Option Text
better mid key best = if matches mid key && is_longer key best then some key else best

best_key-cons :
    (mid key : Text) (p : Price) (t : Table) (best : Option Text)
    → best_key mid ((key, p) ∷ t) best ≡ best_key mid t (better mid key best)
unfolding best_key
best_key-cons mid key p t best = ground arith

size-better :
    (mid key : Text) (best : Option Text)
    → (size best ≤ size (better mid key best))
      × (matches mid key ≡ true → length key ≤ size (better mid key best))
size-better mid key none = (ground arith, λ h. rw h (omega arith))
size-better mid key (some b) = (ground arith, λ h. rw h (ground arith))

better-cases :
    (mid key : Text) (best : Option Text)
    → (better mid key best ≡ best) ⊎ ((better mid key best ≡ some key) × (matches mid key ≡ true))
better-cases mid key best = elim (Bool-cases (matches mid key && is_longer key best)) [
  | inl h ↦ inr (rw h refl, ground arith)
  | inr h ↦ inl (rw h refl)
]

best_key-size :
    (mid : Text) (t : Table) (best : Option Text) → size best ≤ size (best_key mid t best)
unfolding best_key
best_key-size mid [] best = omega arith
best_key-size mid ((key, p) ∷ t) best =
    rw (best_key-cons mid key p t best)
      (omega (arith, (size-better mid key best).0, best_key-size mid t (better mid key best)))

best_key-NoneLonger :
    (mid : Text) (t : Table) (best : Option Text) → NoneLonger mid t (best_key mid t best)
best_key-NoneLonger mid [] best = tt
best_key-NoneLonger mid ((key, p) ∷ t) best =
    let best' = better mid key best in
    let grown = best_key-size mid t best' in
    subst (λ b. NoneLonger mid ((key, p) ∷ t) b) (sym (best_key-cons mid key p t best))
      (
        λ h. let enough = (size-better mid key best).1 h in omega (arith, grown, enough),
        best_key-NoneLonger mid t best',
      )

lookup-first :
    (key : Text) (p : Price) (t : Table) → (q : Price) × (lookup key ((key, p) ∷ t) ≡ some q)
unfolding lookup
lookup-first key p t = (p, rw (==_refl key) refl)

lookup-cons :
    (key k : Text) (p q : Price) (t : Table)
    → lookup k t ≡ some q
    → (r : Price) × (lookup k ((key, p) ∷ t) ≡ some r)
unfolding lookup
lookup-cons key k p q t found = elim (Bool-cases (k == key)) [
  | inl same ↦ (p, rw same refl)
  | inr other ↦ (q, rw other found)
]

-- A best key is one that the id contains and that the table has, unless it was there before.
best_key-matches :
    (mid : Text) (t : Table) (best : Option Text) (k : Text)
    → best_key mid t best ≡ some k
    → (best ≡ some k) ⊎ ((matches mid k ≡ true) × ((p : Price) × (lookup k t ≡ some p)))
unfolding best_key
best_key-matches mid [] best k h = inl h
best_key-matches mid ((key, p) ∷ t) best k h =
    elim (best_key-matches mid t (better mid key best) k
      (rw (best_key-cons mid key p t best) at h)) [
        | inr (contained, (q, found)) ↦ inr (contained, lookup-cons key k p q t found)
        | inl here ↦ elim (better-cases mid key best) [
          | inl same ↦ inl (rw same at here)
          | inr (taken, contained) ↦
              let is_key : key ≡ k = ground (arith, taken, here) in
              inr (rw (sym is_key) contained, rw (sym is_key) (lookup-first key p t))
        ]
      ]

-- The key that decides a price by substring, and the table that it stands in: no table before it
-- has a key that the id contains, and no key of its table that the id contains is longer.
abbrev pub Decided : Text → List (Table × Source) → Price × Source → Type 0
Decided mid [] r = r ≡ ((0, 0), no_source)
Decided mid ((t, src) ∷ ts) r =
    (NoneLonger mid t none × Decided mid ts r)
    ⊎ ((key : Text) × (p : Price) × (matches mid key ≡ true)
        × (lookup key t ≡ some p)
        × NoneLonger mid t (some key)
        × (r ≡ (p, src)))

by_substring_none : (mid : Text) → by_substring mid [] ≡ ((0, 0), no_source)
unfolding by_substring
by_substring_none mid = refl

by_substring_absent :
    (mid : Text) (t : Table) (src : Source) (ts : List (Table × Source))
    → best_key mid t none ≡ none
    → by_substring mid ((t, src) ∷ ts) ≡ by_substring mid ts
unfolding by_substring
by_substring_absent mid t src ts h = ground arith

by_substring_found :
    (mid : Text) (t : Table) (src : Source) (ts : List (Table × Source)) (key : Text) (p : Price)
    → best_key mid t none ≡ some key
    → lookup key t ≡ some p
    → by_substring mid ((t, src) ∷ ts) ≡ (p, src)
unfolding by_substring
by_substring_found mid t src ts key p h found = ground arith

pub by_substring-Decided :
    (mid : Text) (ts : List (Table × Source)) → Decided mid ts (by_substring mid ts)
by_substring-Decided mid [] = by_substring_none mid
by_substring-Decided mid ((t, src) ∷ ts) = elim (Option-cases (best_key mid t none)) [
  | inl absent ↦
      let longest = subst (NoneLonger mid t) absent (best_key-NoneLonger mid t none) in
      let same = by_substring_absent mid t src ts absent in
      inl (longest, subst (Decided mid ts) (sym same) (by_substring-Decided mid ts))
  | inr (key, best) ↦
      let longest = subst (NoneLonger mid t) best (best_key-NoneLonger mid t none) in
      elim (best_key-matches mid t none key best) [
        | inl nothing ↦ ground arith
        | inr (contained, (p, found)) ↦
            inr
              (key, p, contained, found, longest, by_substring_found mid t src ts key p best found)
      ]
]

resolve_missed :
    (s : Prices) (model : Text)
    → lookup (lower model) s.overrides ≡ none
    → lookup (lower model) s.synced ≡ none
    → resolve s model ≡ by_substring (lower model) (tables s)
unfolding resolve
resolve_missed s model a b = rw (resolve, a, b) refl

-- The price of a model whose id is a key of neither table: it is that of the longest key that the
-- id contains, in the first of the overrides, the synced and the built-in table that has such a
-- key, and zero if none has.
pub resolve-Decided :
    (s : Prices) (model : Text)
    → lookup (lower model) s.overrides ≡ none
    → lookup (lower model) s.synced ≡ none
    → Decided (lower model) (tables s) (resolve s model)
resolve-Decided s model a b =
    rw (resolve_missed s model a b) (by_substring-Decided (lower model) (tables s))

resolve_override :
    (s : Prices) (model : Text) (p : Price)
    → lookup (lower model) s.overrides ≡ some p
    → resolve s model ≡ (p, override)
unfolding resolve
resolve_override s model p h = ground arith

lookup-set_override :
    (s : Prices) (key : Text) (p : Price)
    → lookup (lower key) (set_override key p s).overrides ≡ some p
unfolding set_override
lookup-set_override s key p = lookup-insert_self (lower key) p s.overrides

-- After an override is set, every id that is its key up to the case of letters has its price.
pub resolve-set_override :
    (s : Prices) (key model : Text) (p : Price)
    → lower model ≡ lower key
    → resolve (set_override key p s) model ≡ (p, override)
resolve-set_override s key model p same = resolve_override (set_override key p s) model p (
    subst (λ m. lookup m (set_override key p s).overrides ≡ some p) (sym same)
      (lookup-set_override s key p))
