-- ===== src/Base/Lists.antt =====
-- Lists measured by native numbers, Python's `any` and `all`, and membership by recursion.
use Prim.Native.Nat.{ℕ, suc, ◌+◌}
use mathlib.Core.Path.{◌≡◌, refl}
use mathlib.Core.List.{List, [], ◌∷◌, ◌++◌}
use mathlib.Core.Bool.{Bool, true, false, ◌&&◌, ◌||◌}
use native.Mathlib.Omega.{arith}
use agnos_proxy_oss.Base.Tests.{if◌then◌else◌}
use agnos_proxy_oss.Base.Equality.{Eq}

module _ {ℓ} {A : Type ℓ} where
  abbrev pub length : List A → ℕ
  length [] = 0
  length (x ∷ xs) = suc (length xs)

  pub length-append : (xs ys : List A) → length (xs ++ ys) ≡ length xs + length ys
  length-append [] ys = omega arith
  length-append (x ∷ xs) ys = omega (arith, length-append xs ys)

  abbrev pub is_empty : List A → Bool
  is_empty [] = true
  is_empty (x ∷ xs) = false

  -- `any(p(x) for x in xs)` and `all(p(x) for x in xs)`.
  abbrev pub any : (A → Bool) → List A → Bool
  any p [] = false
  any p (x ∷ xs) = p x || any p xs

  abbrev pub all : (A → Bool) → List A → Bool
  all p [] = true
  all p (x ∷ xs) = p x && all p xs

  -- `[x for x in xs if p(x)]`
  abbrev pub keep : (A → Bool) → List A → List A
  keep p [] = []
  keep p (x ∷ xs) = if p x then x ∷ keep p xs else keep p xs

  -- What holds of every element.
  abbrev pub All {κ} : (P : A → Type κ) (xs : List A) → Type κ
  All Q [] = Unit
  All Q (y ∷ ys) = Q y × All Q ys

  pub All-append {κ} :
      (Q : A → Type κ) (front back : List A) → All Q front → All Q back → All Q (front ++ back)
  All-append Q [] back h k = k
  All-append Q (y ∷ front) back (q, h) k = (q, All-append Q front back h k)

  pub All-if {κ} :
      (P : A → Type κ) (b : Bool) (x : A) (xs : List A)
      → (b ≡ true → P x)
      → All P xs
      → All P (if b then x ∷ xs else xs)
  All-if P true x xs h hs = (h refl, hs)
  All-if P false x xs h hs = hs

-- `a in xs`
module _ {ℓ} {A : Type ℓ} ⦃e : Eq A⦄ where
  abbrev pub contains : (xs : List A) (a : A) → Bool
  contains [] wanted = false
  contains (y ∷ ys) wanted = e.beq wanted y || contains ys wanted
