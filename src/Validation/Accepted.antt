-- ===== src/Validation/Accepted.antt =====
-- What a map of aliases that passes the validation looks like.
use agnos_proxy_oss.Base.{
  sym, ℕ, zero, suc, ◌≡◌, refl, String, Bool, true, false, some, List, [], ◌∷◌, ◌++◌, arith,
  contains, string_eq, pair_eq, if◌then◌else◌, not, Bool-cases, inl, inr, is_empty,
}
use agnos_proxy_oss.Base.Json.{
  ℤ, pos, negsuc, Json, null, bool, int, float, str, arr, obj, Fields, end, field, get, get_or_null,
  or_else,
}
use agnos_proxy_oss.Registry.{with_default, weight_of, ok}
use agnos_proxy_oss.Validation.{
  Place, at, Error, err, providers, is_filled, required, unknown_value, unconfigured,
}
use agnos_proxy_oss.Validation.Alias.{
  provider_name_errors, provider_errors, weight_errors, model_of, Seen, target_errors,
  targets_errors, targets_in, alias_errors, aliases_errors,
}

pub nil_parts : (xs ys : List Error) → xs ++ ys ≡ [] → (xs ≡ []) × (ys ≡ [])
nil_parts [] ys h = (refl, h)
nil_parts (x ∷ xs) ys h = ground arith

-- A provider that is known and configured.
abbrev pub IsConfigured : List String → Json → Type 0
IsConfigured configured v =
    (p : String) × (v ≡ str p) × (contains providers p ≡ true) × (contains configured p ≡ true)

tests_passed :
    (loc : List Place) (filled known listed : Bool)
    → (if not filled
        then err loc required
        else if not known
        then err loc unknown_value
        else if not listed
        then err loc unconfigured
        else [])
      ≡ []
    → (known ≡ true) × (listed ≡ true)
tests_passed loc true true true h = (refl, refl)
tests_passed loc true true false h = ground arith
tests_passed loc true false listed h = ground arith
tests_passed loc false known listed h = ground arith

provider_errors-IsConfigured :
    (loc : List Place) (configured : List String) (v : Json)
    → provider_errors loc configured v ≡ []
    → IsConfigured configured v
unfolding provider_name_errors
provider_errors-IsConfigured loc configured (str p) h =
    let (known, listed) =
      tests_passed loc (is_filled (str p)) (contains providers p) (contains configured p) h in
    (p, refl, known, listed)
provider_errors-IsConfigured loc configured null h = ground arith
provider_errors-IsConfigured loc configured (bool b) h = ground arith
provider_errors-IsConfigured loc configured (int n) h = ground arith
provider_errors-IsConfigured loc configured (float n) h = ground arith
provider_errors-IsConfigured loc configured (arr xs) h = ground arith
provider_errors-IsConfigured loc configured (obj d) h = ground arith

-- A weight that the registry can read.
abbrev pub HasWeight : Json → Type 0
HasWeight v = (w : ℤ) × (weight_of (or_else v (int (pos 1))) ≡ ok w)

weight_errors-HasWeight : (loc : List Place) (v : Json) → weight_errors loc v ≡ [] → HasWeight v
weight_errors-HasWeight loc (int (pos zero)) h = (pos 1_000_000, refl)
weight_errors-HasWeight loc (int (pos (suc n))) h = (_, refl)
weight_errors-HasWeight loc (int (negsuc n)) h = ground arith
weight_errors-HasWeight loc (float (pos zero)) h = (pos 1_000_000, refl)
weight_errors-HasWeight loc (float (pos (suc n))) h = (pos (suc n), refl)
weight_errors-HasWeight loc (float (negsuc n)) h = ground arith
weight_errors-HasWeight loc null h = ground arith
weight_errors-HasWeight loc (bool b) h = ground arith
weight_errors-HasWeight loc (str s) h = ground arith
weight_errors-HasWeight loc (arr xs) h = ground arith
weight_errors-HasWeight loc (obj d) h = ground arith

-- A target that names a configured provider and a model, whose weight is a number.
abbrev pub IsTarget : List String → Json → Type 0
IsTarget configured (obj t) =
    IsConfigured configured (get_or_null "provider" t)
    × (is_filled (model_of t) ≡ true)
    × HasWeight (with_default (get "weight" t) (int (pos 1)))
IsTarget configured _ = ⊥

abbrev pub AreTargets : List String → List Json → Type 0
AreTargets configured [] = Unit
AreTargets configured (v ∷ vs) = IsTarget configured v × AreTargets configured vs

target_errors-IsTarget :
    (loc : List Place) (configured : List String) (t : Fields) (seen : Seen)
    → target_errors loc configured t seen ≡ []
    → IsTarget configured (obj t)
unfolding target_errors
target_errors-IsTarget loc configured t seen h =
    let (front, paired) = nil_parts _ _ h in
    let (named, weighed) = nil_parts _ _ front in
    let (provided, modelled) = nil_parts _ _ named in
    (
      provider_errors-IsConfigured _ configured _ provided,
      ground (arith, modelled),
      weight_errors-HasWeight _ _ weighed,
    )

pub targets_errors-AreTargets :
    (loc : List Place) (configured : List String) (i : ℕ) (ts : List Json) (seen : Seen)
    → targets_errors loc configured i ts seen ≡ []
    → AreTargets configured ts
unfolding targets_errors
targets_errors-AreTargets loc configured i [] seen h = tt
targets_errors-AreTargets loc configured i (obj t ∷ ts) seen h =
    let (here, rest) = nil_parts _ _ h in
    (
      target_errors-IsTarget _ configured t seen here,
      targets_errors-AreTargets loc configured (suc i) ts _ rest,
    )
targets_errors-AreTargets loc configured i (null ∷ ts) seen h = ground arith
targets_errors-AreTargets loc configured i (bool b ∷ ts) seen h = ground arith
targets_errors-AreTargets loc configured i (int n ∷ ts) seen h = ground arith
targets_errors-AreTargets loc configured i (float n ∷ ts) seen h = ground arith
targets_errors-AreTargets loc configured i (str s ∷ ts) seen h = ground arith
targets_errors-AreTargets loc configured i (arr xs ∷ ts) seen h = ground arith

alias_errors-AreTargets :
    (loc : List Place) (configured : List String) (alias : String) (v : Json)
    → alias_errors loc configured alias v ≡ []
    → AreTargets configured (targets_in v) × (is_empty (targets_in v) ≡ false)
unfolding alias_errors
alias_errors-AreTargets loc configured alias v h =
    let h' : targets_errors loc configured 0 (targets_in v) [] ≡ [] = ground arith in
    (targets_errors-AreTargets loc configured 0 (targets_in v) [] h', ground arith)

-- Every alias of an accepted map has targets, each with a configured provider, a model and a weight.
pub aliases_errors-AreTargets :
    (base : List Place) (configured : List String) (d : Fields) (alias : String) (v : Json)
    → aliases_errors base configured d ≡ []
    → get alias d ≡ some v
    → AreTargets configured (targets_in v) × (is_empty (targets_in v) ≡ false)
unfolding aliases_errors get
aliases_errors-AreTargets base configured end alias v h found = ground arith
aliases_errors-AreTargets base configured (field j w d) alias v h found =
    let (here, rest) =
      nil_parts (alias_errors (base ++ (at j ∷ [])) configured j w)
        (aliases_errors base configured d) h in
    elim (Bool-cases (string_eq.beq alias j)) [
      | inl same ↦
          let w_is_v : w ≡ v = ground (arith, same, found) in
          rw (sym w_is_v) (alias_errors-AreTargets (base ++ (at j ∷ [])) configured j w here)
      | inr other ↦ aliases_errors-AreTargets base configured d alias v rest (rw other at found)
    ]
