-- ===== src/Base/Dict.antt =====
-- A Python dict in insertion order, over keys with an equality.
use Prim.Native.Nat.{◌+◌, ◌≤◌}
use mathlib.Core.Path.{◌≡◌, refl, sym}
use mathlib.Core.Logic.{◌≢◌, inl, inr}
use mathlib.Core.List.{List, [], ◌∷◌, map}
use mathlib.Core.Bool.{Bool}
use mathlib.Core.Option.{Option, none, some}
use native.Mathlib.Omega.{arith}
use agnos_proxy_oss.Base.Tests.{if◌then◌else◌, Bool-cases}
use agnos_proxy_oss.Base.Equality.{Eq}
use agnos_proxy_oss.Base.Lists.{length}

abbrev pub Dict {ℓ κ} : Type ℓ → Type κ → Type (ℓ ⊔ κ)
Dict K V = List (K × V)

module _ {ℓ κ} {K : Type ℓ} {V : Type κ} where
  abbrev pub keys : Dict K V → List K
  keys = map (λ e. e.0)

module _ {ℓ κ} {K : Type ℓ} {V : Type κ} ⦃e : Eq K⦄ where
  -- `d.get(k)`
  unfoldable pub lookup : K → Dict K V → Option V
  lookup k [] = none
  lookup k ((j, v) ∷ d) = if e.beq k j then some v else lookup k d

  -- `d[k] = v`
  unfoldable pub insert : K → V → Dict K V → Dict K V
  insert k v [] = (k, v) ∷ []
  insert k v ((j, w) ∷ d) = if e.beq k j then (j, v) ∷ d else (j, w) ∷ insert k v d

  -- `d.pop(k, None)`
  unfoldable pub erase : K → Dict K V → Dict K V
  erase k [] = []
  erase k ((j, w) ∷ d) = if e.beq k j then erase k d else (j, w) ∷ erase k d

  -- `{k: v for k, v in d.items() if p(k)}`
  unfoldable pub keep_keys : (K → Bool) → Dict K V → Dict K V
  keep_keys p [] = []
  keep_keys p ((j, w) ∷ d) = if p j then (j, w) ∷ keep_keys p d else keep_keys p d

  pub lookup-insert :
      (k j : K) (v : V) (d : Dict K V)
      → lookup j (insert k v d) ≡ (if e.beq j k then some v else lookup j d)
  unfolding lookup insert
  lookup-insert k j v [] = refl
  lookup-insert k j v ((i, w) ∷ d) =
      ground (arith, e.beq_iff j k, e.beq_iff k i, e.beq_iff j i, lookup-insert k j v d)

  pub lookup-insert_self : (k : K) (v : V) (d : Dict K V) → lookup k (insert k v d) ≡ some v
  lookup-insert_self k v d = ground (arith, lookup-insert k k v d, e.beq_iff k k)

  pub lookup-insert_ne :
      (k j : K) (v : V) (d : Dict K V) → j ≢ k → lookup j (insert k v d) ≡ lookup j d
  lookup-insert_ne k j v d h = ground (arith, lookup-insert k j v d, e.beq_iff j k)

  -- What holds of every value of a dict and of one more holds after that one is stored.
  pub lookup-insert_every {μ} :
      (Q : K → V → Type μ) (k : K) (v : V) (d : Dict K V)
      → Q k v
      → ((j : K) (w : V) → lookup j d ≡ some w → Q j w)
      → (j : K) (w : V) → lookup j (insert k v d) ≡ some w
      → Q j w
  lookup-insert_every Q k v d q h j w found =
      let found' = rw (lookup-insert k j v d) at found in
      elim (Bool-cases (e.beq j k)) [
        | inl same ↦
            let v_is_w : v ≡ w = ground (arith, found', same) in
            rw ((e.beq_iff j k).0 same, sym v_is_w) q
        | inr other ↦ h j w (rw other at found')
      ]

  pub lookup-keep_keys :
      (p : K → Bool) (k : K) (d : Dict K V)
      → lookup k (keep_keys p d) ≡ (if p k then lookup k d else none)
  unfolding lookup keep_keys
  lookup-keep_keys p k [] = ground arith
  lookup-keep_keys p k ((i, w) ∷ d) = ground (arith, e.beq_iff k i, lookup-keep_keys p k d)

  pub length-insert : (k : K) (v : V) (d : Dict K V) → length (insert k v d) ≤ length d + 1
  unfolding insert
  length-insert k v [] = omega arith
  length-insert k v ((j, w) ∷ d) = ground (arith, length-insert k v d)
