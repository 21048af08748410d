-- ===== src/Guardrails/Scope.antt =====
-- Whose rules a request is held against.
use agnos_proxy_oss.Base.{
  ℕ, ◌≡◌, ◌⊎◌, refl, String, Bool, true, false, Option, none, some, List, [], ◌∷◌, ◌&&◌, not, ltb,
  ◌==◌, string_eq, option_eq, pair_eq, nat_eq, arith, All, All-append, All-if, contains, Bool-cases,
  Option-cases, inl, inr, ==_iff,
}
use agnos_proxy_oss.Base.Dict.{Dict, lookup, lookup-insert_every}
use agnos_proxy_oss.Guardrails.{
  Cache, CompiledRule, Config, Detector, GuardrailProfile, GuardrailRule, InlineRule, Library,
  Tables, rule_applies,
}
use agnos_proxy_oss.Guardrails.Rules.{
  compile_rows, compiled, db_rules, detectors_for, inline_all, inline_rules, is_selected,
  query_rules, rules_of, select_rows, selected_rules,
}
use agnos_proxy_oss.Guardrails.Evaluate.{input_rules}

-- A rule that is global, of the workspace, or in some scope of the workspace's own.
abbrev pub IsOwn : String → CompiledRule → Type 0
IsOwn workspace_id r = (r.scope ≡ "global") ⊎ (r.workspace_id ≡ some workspace_id)

module _ (lib : Library) (workspace_id : String) (component : Option String) where
  applies-own :
      (scope : String) (ws comp : Option String)
      → rule_applies scope ws comp workspace_id component ≡ true
      → (scope ≡ "global") ⊎ (ws ≡ some workspace_id)
  unfolding rule_applies
  applies-own scope ws comp h = elim (Bool-cases (scope == "global")) [
    | inl global ↦ inl ((==_iff scope "global").0 global)
    | inr local ↦ elim (Bool-cases (ws == some workspace_id)) [
      | inl own ↦ inr ((==_iff ws (some workspace_id)).0 own)
      | inr foreign ↦ ground arith
    ]
  ]

  selected-own :
      (r : GuardrailRule)
      → is_selected lib workspace_id r ≡ true
      → (r.scope ≡ "global") ⊎ (r.workspace_id ≡ some workspace_id)
  selected-own r h = elim (Bool-cases (r.scope == "global")) [
    | inl global ↦ inl ((==_iff r.scope "global").0 global)
    | inr local ↦ inr ((==_iff r.workspace_id (some workspace_id)).0 (ground arith))
  ]

  and_left : (a b : Bool) → a && b ≡ true → a ≡ true
  and_left a b h = ground arith

  and_right : (a b : Bool) → a && b ≡ true → b ≡ true
  and_right a b h = ground arith

  select_rows-IsOwn :
      (ids : List ℕ) (ps : List GuardrailProfile) (rs : List GuardrailRule)
      → All (IsOwn workspace_id) (select_rows lib ids workspace_id component ps rs)
  unfolding select_rows
  select_rows-IsOwn ids ps [] = tt
  select_rows-IsOwn ids ps (r ∷ rs) =
      All-if (IsOwn workspace_id)
        (contains ids r.id
          && rule_applies r.scope r.workspace_id r.component workspace_id component)
        (compiled lib false ps r) (select_rows lib ids workspace_id component ps rs)
        (λ h. applies-own r.scope r.workspace_id r.component (and_right (contains ids r.id) _ h))
        (select_rows-IsOwn ids ps rs)

  compile_rows-IsOwn :
      (ps : List GuardrailProfile) (rs : List GuardrailRule)
      → All (IsOwn workspace_id) (compile_rows lib workspace_id component ps rs)
  unfolding compile_rows
  compile_rows-IsOwn ps [] = tt
  compile_rows-IsOwn ps (r ∷ rs) =
      All-if (IsOwn workspace_id)
        (is_selected lib workspace_id r
          && not (r.scope == "component" && not (r.component == component)))
        (compiled lib true ps r) (compile_rows lib workspace_id component ps rs)
        (λ h. selected-own r (and_left (is_selected lib workspace_id r) _ h))
        (compile_rows-IsOwn ps rs)

  inline_all-IsOwn :
      (ds : Dict String Detector) (override : Option String) (rs : List InlineRule)
      → All (IsOwn workspace_id) (inline_all lib ds override rs)
  inline_all-IsOwn ds override [] = tt
  inline_all-IsOwn ds override (r ∷ rs) = (inl refl, inline_all-IsOwn ds override rs)

  -- The cache holds, for every workspace, rules that are its own.
  abbrev pub CacheOwn : Cache → Type 0
  CacheOwn c =
      (k : String × Option String) (v : List CompiledRule × ℕ)
      → lookup k c ≡ some v
      → All (IsOwn k.0) v.0

  query_rules-IsOwn :
      (now : ℕ) (db : Option Tables) (c : Cache)
      → CacheOwn c
      → let (rules, c') = query_rules lib workspace_id component now db c in
        All (IsOwn workspace_id) rules × CacheOwn c'
  query_rules-IsOwn now none c own = (tt, own)
  query_rules-IsOwn now (some t) c own =
      let rules = compile_rows-IsOwn t.profiles t.rules in
      (
        rules,
        lookup-insert_every (λ k v. All (IsOwn k.0) v.0) (workspace_id, component) _ c rules own,
      )

  db_rules-cases :
      (now : ℕ) (db : Option Tables) (c : Cache)
      → (db_rules lib workspace_id component now db c
          ≡ query_rules lib workspace_id component now db c)
        ⊎ ((v : List CompiledRule × ℕ) × (lookup (workspace_id, component) c ≡ some v)
            × (db_rules lib workspace_id component now db c ≡ (v.0, c)))
  unfolding db_rules
  db_rules-cases now db c = elim (Option-cases (lookup (workspace_id, component) c)) [
    | inl absent ↦ inl (rw (db_rules, absent) refl)
    | inr ((rules, expiry), found) ↦ elim (Bool-cases (ltb now expiry)) [
      | inl fresh ↦ inr ((rules, expiry), found, rw (db_rules, found, fresh) refl)
      | inr old ↦ inl (rw (db_rules, found, old) refl)
    ]
  ]

  db_rules-IsOwn :
      (now : ℕ) (db : Option Tables) (c : Cache)
      → CacheOwn c
      → let (rules, c') = db_rules lib workspace_id component now db c in
        All (IsOwn workspace_id) rules × CacheOwn c'
  db_rules-IsOwn now db c own = elim (db_rules-cases now db c) [
    | inl asked ↦ rw asked (query_rules-IsOwn now db c own)
    | inr (v, found, cached) ↦ rw cached (own (workspace_id, component) v found, own)
  ]

  selected_rules-IsOwn :
      (ids : List ℕ) (db : Option Tables)
      → All (IsOwn workspace_id) (selected_rules lib ids workspace_id component db)
  selected_rules-IsOwn [] db = tt
  selected_rules-IsOwn (id ∷ ids) none = tt
  selected_rules-IsOwn (id ∷ ids) (some t) = select_rows-IsOwn (id ∷ ids) t.profiles t.rules

  inline_rules-IsOwn :
      (g : Config) (override : Option String)
      → All (IsOwn workspace_id) (inline_rules lib g override)
  unfolding inline_rules
  inline_rules-IsOwn g override = inline_all-IsOwn (detectors_for lib g) override (rules_of lib g)

  -- No rule leaks between workspaces: if the cache holds for every workspace only its own and global
  -- rules, then so does the list that a request is held against, whatever rule ids the request
  -- names, and the cache after it does as well.
  pub input_rules-IsOwn :
      (g : Config) (ids : List ℕ) (override : Option String) (now : ℕ) (db : Option Tables)
      (c : Cache)
      → CacheOwn c
      → let (rules, c') = input_rules lib g ids override workspace_id component now db c in
        All (IsOwn workspace_id) rules × CacheOwn c'
  input_rules-IsOwn g ids override now db c own =
      let (stored, kept) = db_rules-IsOwn now db c own in
      let inline = inline_rules-IsOwn g override in
      (
        All-append (IsOwn workspace_id) _ _
            (All-append (IsOwn workspace_id) _ _ (selected_rules-IsOwn ids db) stored) inline,
        kept,
      )
