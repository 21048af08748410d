-- ===== src/Registry/Routing.antt =====
-- What a resolved request may be sent to.
use mathlib.Core.List.{Perm}
use mathlib.Core.Option.{some-injective}
use mathlib.Core.List.Perm
use agnos_proxy_oss.Base.{
  ℕ, zero, suc, ◌≡◌, ◌≢◌, refl, ap, String, Option, some, true, false, List, [], ◌∷◌, arith, All,
  map, Option-cases, Bool-cases, inl, inr, sym, ◌∙◌, ◌⊎◌,
}
use agnos_proxy_oss.Base.Json.{Json}
use agnos_proxy_oss.Registry.{
  Error, ResolvedTarget, Result, Workspace, alias_targets, err, new_target, ok, target_of,
  targets_of,
}
use agnos_proxy_oss.Registry.Resolve.{
  Choose, in_workspace, is_default, is_prefixed, partition, pop_at, requested, resolve_alias,
  resolve_chat_targets, resolve_specs, to_front, weighted,
}

pop_at-Perm :
    (i : ℕ) (xs : List ResolvedTarget) (p : ResolvedTarget × List ResolvedTarget)
    → pop_at i xs ≡ some p
    → Perm (p.0 ∷ p.1) xs
unfolding pop_at
pop_at-Perm i [] p h = absurd (ground arith)
pop_at-Perm zero (x ∷ xs) p h = rw (← some-injective (x, xs) p h) (Perm.refl (x ∷ xs))
pop_at-Perm (suc i) (x ∷ xs) p h = elim (Option-cases (pop_at i xs)) [
  | inl e ↦ absurd (ground arith)
  | inr (q, e) ↦
      let same : (q.0, x ∷ q.1) ≡ p = ground arith in
      rw (← same) (Perm.trans (Perm.swap x q.0 q.1) (Perm.cons x (pop_at-Perm i xs q e)))
]

-- Moving the drawn target to the front loses none and adds none.
to_front-Perm : (i : ℕ) (xs : List ResolvedTarget) → Perm (to_front i xs) xs
unfolding to_front
to_front-Perm i xs = elim (Option-cases (pop_at i xs)) [
  | inl e ↦ rw (e, to_front) (Perm.refl xs)
  | inr (q, e) ↦ rw (e, to_front) (pop_at-Perm i xs q e)
]

weighted-Perm :
    (choose : Choose) (ts us : List ResolvedTarget) → weighted choose ts ≡ ok us → Perm us ts
unfolding weighted
weighted-Perm choose ts us h = elim (Option-cases (choose (map (λ t. t.weight) ts))) [
  | inl e ↦ let same : us ≡ ts = ground arith in rw same (Perm.refl ts)
  | inr (i, e) ↦
      let either : (us ≡ ts) ⊎ (us ≡ to_front i ts) = ground arith in
      elim either [ inl same ↦ rw same (Perm.refl ts) | inr moved ↦ rw moved (to_front-Perm i ts) ]
]

Result-cases {ℓ} :
    {A : Type ℓ} (r : Result A) → ((v : A) × (r ≡ ok v)) ⊎ ((failure : Error) × (r ≡ err failure))
Result-cases (ok a) = inl (a, refl)
Result-cases (err e) = inr (e, refl)

-- The targets of the specs, in some order and marked with their workspace.
abbrev pub Listed : Workspace → List Json → List ResolvedTarget → Type 0
Listed ws specs us =
    (base : List ResolvedTarget) × (targets_of specs ≡ ok base)
    × Perm us (map (in_workspace ws.workspace_id) base)
    × (us ≢ [])
    × All (λ t. t.workspace_id ≡ some ws.workspace_id) us

map-in_workspace-All :
    (w : String) (ts : List ResolvedTarget)
    → All (λ t. t.workspace_id ≡ some w) (map (in_workspace w) ts)
map-in_workspace-All w [] = tt
map-in_workspace-All w (t ∷ ts) = (refl, map-in_workspace-All w ts)

map-eq-nil : (w : String) (ts : List ResolvedTarget) → map (in_workspace w) ts ≡ [] → ts ≡ []
map-eq-nil w [] e = refl
map-eq-nil w (t ∷ ts) e = absurd (ground arith)

targets_of-ne-nil : (s : Json) (specs : List Json) → targets_of (s ∷ specs) ≢ ok []
unfolding targets_of
targets_of-ne-nil s specs h = elim (Result-cases (target_of s)) [
  | inr (e, failed) ↦ ground arith
  | inl (t, found) ↦ elim (Result-cases (targets_of specs)) [
    | inr (e, failed) ↦ ground arith
    | inl (ts, rest) ↦ ground arith
  ]
]

resolve_specs-Listed :
    (choose : Choose) (ws : Workspace) (model alias : String) (specs : List Json)
    (us : List ResolvedTarget)
    → resolve_specs choose ws model specs ≡ ok (alias, us)
    → (alias ≡ model) × Listed ws specs us
unfolding resolve_specs
resolve_specs-Listed choose ws model alias [] us h = absurd (ground arith)
resolve_specs-Listed choose ws model alias (s ∷ specs) us h =
    elim (Result-cases (targets_of (s ∷ specs))) [
      | inr (e, failed) ↦ absurd (ground arith)
      | inl (base, found) ↦ elim (Result-cases (weighted choose base)) [
        | inr (e, failed) ↦ absurd (ground arith)
        | inl (ordered, drawn) ↦
            let same : us ≡ map (in_workspace ws.workspace_id) ordered = ground arith in
            (
              ground arith,
              (
                base,
                found,
                rw same (
                    Perm.map (in_workspace ws.workspace_id)
                      (weighted-Perm choose base ordered drawn)),
                (λ none_left.
                    let gone = map-eq-nil ws.workspace_id ordered (sym same ∙ none_left) in
                    targets_of-ne-nil s specs (
                      found
                      ∙ ap ok (
                          sym
                            (Perm.nil-eq (rw gone at (weighted-Perm choose base ordered drawn)))))),
                rw same (map-in_workspace-All ws.workspace_id ordered),
              ),
            )
      ]
    ]

resolve_alias-Listed :
    (choose : Choose) (ws : Workspace) (model alias : String) (us : List ResolvedTarget)
    → resolve_alias choose ws model ≡ ok (alias, us)
    → (alias ≡ model) × Listed ws (alias_targets ws.chat_models model) us
unfolding resolve_alias
resolve_alias-Listed choose ws model alias us h =
    resolve_specs-Listed choose ws model alias (alias_targets ws.chat_models model) us h

-- A model that names no provider is resolved to all targets that the alias table lists for the
-- returned alias, each of them once, in some order and marked with the workspace, and to one at
-- least. The alias is the requested one, or the workspace's default for a model that asks for it.
pub resolve_chat_targets-Listed :
    (choose : Choose) (ws : Workspace) (asked : Option String) (alias : String)
    (us : List ResolvedTarget)
    → is_prefixed (requested asked) ≡ false
    → resolve_chat_targets choose ws asked ≡ ok (alias, us)
    → ((alias ≡ requested asked)
        ⊎ ((is_default (requested asked) ≡ true) × (ws.default_chat_alias ≡ some alias)))
      × Listed ws (alias_targets ws.chat_models alias) us
unfolding resolve_chat_targets
resolve_chat_targets-Listed choose ws asked alias us plain h =
    elim (Bool-cases (is_default (requested asked))) [
      | inl default ↦ elim (Option-cases ws.default_chat_alias) [
        | inl unset ↦ absurd (ground arith)
        | inr (a, set_to) ↦
            let found : resolve_alias choose ws a ≡ ok (alias, us) = ground arith in
            let (same, listed) = resolve_alias-Listed choose ws a alias us found in
            (inr (default, set_to ∙ ap some (sym same)), rw same listed)
      ]
      | inr named ↦
          let found : resolve_alias choose ws (requested asked) ≡ ok (alias, us) = ground arith in
          let (same, listed) = resolve_alias-Listed choose ws (requested asked) alias us found in
          (inl same, rw same listed)
    ]

-- A model that names its provider goes to that provider alone, whatever the alias table says.
pub resolve_chat_targets_prefixed :
    (choose : Choose) (ws : Workspace) (asked : Option String)
    → is_prefixed (requested asked) ≡ true
    → let (provider, model_id) = partition b':' (requested asked) in
      resolve_chat_targets choose ws asked
      ≡ ok (
        requested asked,
        record (new_target provider model_id) { workspace_id = some ws.workspace_id } ∷ [],
      )
unfolding resolve_chat_targets
resolve_chat_targets_prefixed choose ws asked h = ground arith
