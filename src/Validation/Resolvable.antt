-- ===== src/Validation/Resolvable.antt =====
-- A map of aliases that passes the validation can be resolved by the registry.
use agnos_proxy_oss.Base.{
  ◌≡◌, refl, ap, ◌∙◌, String, true, false, Option, none, some, List, [], ◌∷◌, arith, contains,
  string_eq, is_empty, if◌then◌else◌, Option-cases, inl, inr, All,
}
use agnos_proxy_oss.Base.Json.{
  ℤ, pos, Json, null, bool, int, float, str, arr, obj, Fields, end, field, nil, cons, get, items,
  is_truthy, or_else,
}
use agnos_proxy_oss.Registry.{
  ResolvedTarget, ok, new_target, text_at, target_of, targets_of, alias_targets, with_default,
  weight_of,
}
use agnos_proxy_oss.Validation.{Place}
use agnos_proxy_oss.Validation.Alias.{validate_alias_map, targets_in}
use agnos_proxy_oss.Validation.Accepted.{IsTarget, AreTargets, aliases_errors-AreTargets}

-- A target whose model stands under `model_id`, the key that the registry reads.
abbrev pub HasModelId : Json → Type 0
HasModelId (obj t) = (m : String) × (get "model_id" t ≡ some (str m))
HasModelId _ = Unit

abbrev pub Resolves : List String → List Json → Type 0
Resolves configured specs =
    (ts : List ResolvedTarget) × (targets_of specs ≡ ok ts)
    × All (λ t. contains configured t.provider ≡ true) ts

-- A key that is not null is there.
or_null : Option Json → Json
or_null none = null
or_null (some v) = v

get_text :
    (o : Option Json) (p : String) → elim o [ none ↦ null | some v ↦ v ] ≡ str p → o ≡ some (str p)
get_text none p h = ground arith
get_text (some v) p h = ap some h

text_at_case : (k : String) (t : Fields) (p : String) → get k t ≡ some (str p) → text_at k t ≡ ok p
unfolding text_at
text_at_case k t p h = rw (text_at, h) refl

target_of_case :
    (t : Fields) (p m : String) (w : ℤ)
    → text_at "provider" t ≡ ok p
    → text_at "model_id" t ≡ ok m
    → weight_of (or_else (with_default (get "weight" t) (int (pos 1))) (int (pos 1))) ≡ ok w
    → (u : ResolvedTarget) × (target_of (obj t) ≡ ok u) × (u.provider ≡ p)
unfolding target_of
target_of_case t p m w named modelled weighed = (
  record (new_target p m) {
    context_window = with_default (get "context_window" t) (int (pos 100000));
    weight = w;
  },
  rw (named, modelled, weighed) refl,
  refl,
)

target_of-IsTarget :
    (configured : List String) (v : Json)
    → IsTarget configured v
    → HasModelId v
    → (u : ResolvedTarget) × (target_of v ≡ ok u) × (contains configured u.provider ≡ true)
target_of-IsTarget configured (obj t) ((p, is_p, known, listed), filled, (w, weighed)) (m, is_m) =
    let (u, resolved, provider) =
      target_of_case t p m w (text_at_case "provider" t p (get_text (get "provider" t) p is_p))
        (text_at_case "model_id" t m is_m) weighed in
    (u, resolved, ap (contains configured) provider ∙ listed)
target_of-IsTarget configured null h k = absurd h
target_of-IsTarget configured (bool b) h k = absurd h
target_of-IsTarget configured (int n) h k = absurd h
target_of-IsTarget configured (float n) h k = absurd h
target_of-IsTarget configured (str s) h k = absurd h
target_of-IsTarget configured (arr xs) h k = absurd h

targets_of-AreTargets :
    (configured : List String) (ts : List Json)
    → AreTargets configured ts
    → All HasModelId ts
    → Resolves configured ts
unfolding targets_of
targets_of-AreTargets configured [] h k = ([], refl, tt)
targets_of-AreTargets configured (v ∷ vs) (h, hs) (k, ks) =
    let (u, resolved, listed) = target_of-IsTarget configured v h k in
    let (us, rest, all_listed) = targets_of-AreTargets configured vs hs ks in
    (u ∷ us, rw (resolved, rest) refl, (listed, all_listed))

-- The specs that the registry takes for the value of an alias.
abbrev specs_in : Json → List Json
specs_in v = if is_truthy v then elim v [ arr xs ↦ items xs | other ↦ other ∷ [] ] else []

specs_in-Resolves :
    (configured : List String) (v : Json)
    → AreTargets configured (targets_in v)
    → is_empty (targets_in v) ≡ false
    → All HasModelId (specs_in v)
    → Resolves configured (specs_in v)
specs_in-Resolves configured null h some_target k = ground arith
specs_in-Resolves configured (bool b) h some_target k = ground arith
specs_in-Resolves configured (int n) h some_target k = ground arith
specs_in-Resolves configured (float n) h some_target k = ground arith
specs_in-Resolves configured (str s) h some_target k = ground arith
specs_in-Resolves configured (arr nil) h some_target k = ground arith
specs_in-Resolves configured (arr (cons x xs)) h some_target k =
    targets_of-AreTargets configured (x ∷ items xs) h k
specs_in-Resolves configured (obj end) h some_target k = targets_of-AreTargets configured [] tt tt
specs_in-Resolves configured (obj (field j w d)) h some_target k =
    targets_of-AreTargets configured (obj (field j w d) ∷ []) h k

abbrev specs_of : Option Json → List Json
specs_of none = []
specs_of (some v) = specs_in v

alias_targets-eq-specs_of :
    (d : Fields) (alias : String) (o : Option Json)
    → get alias d ≡ o
    → alias_targets d alias ≡ specs_of o
unfolding alias_targets
alias_targets-eq-specs_of d alias none h = rw (alias_targets, h) refl
alias_targets-eq-specs_of d alias (some v) h = rw (alias_targets, h) refl

-- Every alias of a map that passes the validation, and whose targets have their model under
-- `model_id`, is one that the registry can resolve: each of its targets is read without an
-- exception, and its provider is one that is configured for the workspace.
pub validate_alias_map-Resolves :
    (base : List Place) (configured : List String) (d : Fields) (alias : String)
    → validate_alias_map base configured (obj d) ≡ []
    → All HasModelId (alias_targets d alias)
    → Resolves configured (alias_targets d alias)
unfolding validate_alias_map
validate_alias_map-Resolves base configured d alias h k = elim (Option-cases (get alias d)) [
  | inl missing ↦
      rw (alias_targets-eq-specs_of d alias none missing)
        (targets_of-AreTargets configured [] tt tt)
  | inr (v, found) ↦
      let (targets, some_target) = aliases_errors-AreTargets base configured d alias v h found in
      let specs = alias_targets-eq-specs_of d alias (some v) found in
      rw specs (specs_in-Resolves configured v targets some_target (rw specs at k))
]
