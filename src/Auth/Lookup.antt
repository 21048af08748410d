-- ===== src/Auth/Lookup.antt =====
-- What the caches of the key lookup hold.
use agnos_proxy_oss.Base.{
  ℕ, ◌+◌, ◌<◌, ◌≡◌, refl, String, Bool, true, false, Option, none, some, arith, ltb, eqb, string_eq,
  Option-cases, Bool-cases, inl, inr, ◌⊎◌, ⊤, truthy, pair_eq,
}
use agnos_proxy_oss.Base.Dict.{lookup, lookup-insert_every}
use agnos_proxy_oss.Base.Text.{Text}
use agnos_proxy_oss.Auth.{
  Claims, Error, Library, Result, Store, Tables, Workspace, WorkspaceContext, allocate, err,
  extract_bearer, fall_back, find_workspace, from_database, load, ok, remember, resolve_digest,
  resolve_workspace, ttl, write,
}
use agnos_proxy_oss.Auth.Principal.{
  attribute, attribute_any, jwt_claims, jwt_context, jwt_named, jwt_query, or_text,
  overlay_component, resolve_jwt, resolve_principal,
}

-- A context but for the component, which requests overwrite.
abbrev pub bare : WorkspaceContext → WorkspaceContext
bare c = record c { component = none }

abbrev pub is_fresh : ℕ → Option (ℕ × ℕ) → Bool
is_fresh now none = false
is_fresh now (some (a, expiry)) = ltb now expiry

-- The database is asked when the cache has no entry for the digest, or an expired one.
pub resolve_digest_loaded :
    (digest : String) (now : ℕ) (db : Option Tables) (st : Store)
    → is_fresh now (lookup digest st.cache) ≡ false
    → resolve_digest digest now db st ≡ from_database digest now db st
unfolding resolve_digest
resolve_digest_loaded digest now db st old = ground arith

pub resolve_digest_fresh :
    (digest : String) (now : ℕ) (db : Option Tables) (st : Store) (a expiry : ℕ)
    → lookup digest st.cache ≡ some (a, expiry)
    → ltb now expiry ≡ true
    → resolve_digest digest now db st ≡ (ok a, st)
unfolding resolve_digest
resolve_digest_fresh digest now db st a expiry found fresh = ground arith

bare-write :
    (heap : ℕ → WorkspaceContext) (a b : ℕ) (component : Option String)
    → bare (write a (record (heap a) { component = component }) heap b) ≡ bare (heap b)
bare-write heap a b component = ground arith

-- An attribution changes nothing of a store but components.
pub overlay_component-bare :
    (a : ℕ) (component : Option String) (db : Option Tables) (st : Store)
    → let st' = overlay_component a component db st in
      (st'.cache ≡ st.cache)
      × (st'.stale ≡ st.stale)
      × (st'.next ≡ st.next)
      × ((b : ℕ) → bare (st'.heap b) ≡ bare (st.heap b))
unfolding overlay_component
overlay_component-bare a component db st = (
  ground arith,
  ground arith,
  ground arith,
  λ b. ground (arith, bare-write st.heap a b component),
)

Result-cases :
    (r : Result Text) → ((t : Text) × (r ≡ ok t)) ⊎ ((failure : Error) × (r ≡ err failure))
Result-cases (ok t) = inl (t, refl)
Result-cases (err e) = inr (e, refl)

resolve_workspace_failed :
    (lib : Library) (header : Option Text) (now : ℕ) (db : Option Tables) (st : Store) (e : Error)
    → extract_bearer header ≡ err e
    → resolve_workspace lib header now db st ≡ (err e, st)
unfolding resolve_workspace
resolve_workspace_failed lib header now db st e failed = ground arith

pub resolve_workspace_key :
    (lib : Library) (header : Option Text) (now : ℕ) (db : Option Tables) (st : Store) (key : Text)
    → extract_bearer header ≡ ok key
    → resolve_workspace lib header now db st ≡ resolve_digest (lib.hash_key key) now db st
unfolding resolve_workspace
resolve_workspace_key lib header now db st key found = ground arith

module _ (lib : Library) (header : Option Text) (component : Option String) (now : ℕ)
    (db : Option Tables) (st : Store) where
  resolve_principal_failed :
      (e : Error)
      → extract_bearer header ≡ err e
      → resolve_principal lib header component now db st ≡ some (err e, st)
  unfolding resolve_principal
  resolve_principal_failed e failed = ground arith

  resolve_principal_jwt :
      (token : Text)
      → extract_bearer header ≡ ok token
      → lib.looks_like_jwt token ≡ true
      → resolve_principal lib header component now db st
        ≡ attribute_any component db (resolve_jwt lib token db st)
  unfolding resolve_principal
  resolve_principal_jwt token found signed = ground arith

  pub resolve_principal_key :
      (token : Text)
      → extract_bearer header ≡ ok token
      → lib.looks_like_jwt token ≡ false
      → resolve_principal lib header component now db st
        ≡ attribute_any component db (some (resolve_workspace lib header now db st))
  unfolding resolve_principal
  resolve_principal_key token found opaque = ground arith

module _ (P : String → WorkspaceContext → Type 0) where
  -- The address is in use and holds what `P` admits for the digest.
  abbrev pub Holds : Store → String → ℕ → Type 0
  Holds st digest a = (a < st.next) × P digest (bare (st.heap a))

  -- Every cached context is one that `P` admits for its digest.
  abbrev pub Known : Store → Type 0
  Known st =
      ((digest : String) (v : ℕ × ℕ) → lookup digest st.cache ≡ some v → Holds st digest v.0)
      × ((digest : String) (a : ℕ) → lookup digest st.stale ≡ some a → Holds st digest a)

  -- What a call leaves: a store that is known, and if it returns, a known context.
  abbrev pub Answers : String → Result ℕ × Store → Type 0
  Answers digest (err e, st) = Known st
  Answers digest (ok a, st) = Known st × Holds st digest a

  Holds-allocate :
      (c : WorkspaceContext) (st : Store) (digest : String) (a : ℕ)
      → Holds st digest a
      → Holds (allocate c st).1 digest a
  Holds-allocate c st digest a (used, p) =
      let old : eqb a st.next ≡ false = ground arith in (omega arith, rw old p)

  Holds-new :
      (c : WorkspaceContext) (st : Store) (digest : String)
      → P digest (bare c)
      → Holds (allocate c st).1 digest st.next
  Holds-new c st digest p =
      let same : eqb st.next st.next ≡ true = ground arith in (omega arith, rw same p)

  remember-Answers :
      (digest : String) (now : ℕ) (r : Result WorkspaceContext) (st : Store)
      → ((c : WorkspaceContext) → r ≡ ok c → P digest (bare c))
      → Known st
      → Answers digest (remember digest now r st)
  remember-Answers digest now (err e) st good known = known
  remember-Answers digest now (ok c) st good (cached, stale) =
      let new = Holds-new c st digest (good c refl) in
      let st' = (allocate c st).1 in
      (
        (
          lookup-insert_every (λ k v. Holds st' k v.0) digest (st.next, now + ttl) st.cache new
              (λ k v found. Holds-allocate c st k v.0 (cached k v found)),
          lookup-insert_every (Holds st') digest st.next st.stale new
              (λ k a found. Holds-allocate c st k a (stale k a found)),
        ),
        new,
      )

  fall_back-Answers :
      (digest : String) (st : Store)
      → Known st
      → Answers digest (fall_back (lookup digest st.cache) (lookup digest st.stale) st)
  fall_back-Answers digest st (cached, stale) = elim (Option-cases (lookup digest st.cache)) [
    | inr (v, found) ↦ rw found ((cached, stale), cached digest v found)
    | inl absent ↦ elim (Option-cases (lookup digest st.stale)) [
      | inr (a, found) ↦ rw (absent, found) ((cached, stale), stale digest a found)
      | inl gone ↦ rw (absent, gone) (cached, stale)
    ]
  ]

  loaded-Answers :
      (digest : String) (now : ℕ) (db : Option Tables) (st : Store)
      → ((t : Tables) (c : WorkspaceContext)
          → db ≡ some t
          → load digest now t ≡ ok c
          → P digest (bare c))
      → Known st
      → Answers digest (from_database digest now db st)
  loaded-Answers digest now none st good known = fall_back-Answers digest st known
  loaded-Answers digest now (some t) st good known =
      remember-Answers digest now (load digest now t) st (λ c loaded. good t c refl loaded) known

  -- Whatever holds of the context that the database of the call gives for a digest, and of all that
  -- the caches hold, holds, but for the component, of every context that the lookup returns for it, from a cache or not, and of all
  -- that the caches hold after it.
  pub resolve_digest-Answers :
      (digest : String) (now : ℕ) (db : Option Tables) (st : Store)
      → ((t : Tables) (c : WorkspaceContext)
          → db ≡ some t
          → load digest now t ≡ ok c
          → P digest (bare c))
      → Known st
      → Answers digest (resolve_digest digest now db st)
  resolve_digest-Answers digest now db st good known =
      let loaded = loaded-Answers digest now db st good known in
      elim (Option-cases (lookup digest st.cache)) [
        | inl absent ↦
            let old : is_fresh now (lookup digest st.cache) ≡ false = rw absent refl in
            rw (resolve_digest_loaded digest now db st old) loaded
        | inr ((a, expiry), found) ↦ elim (Bool-cases (ltb now expiry)) [
          | inl fresh ↦
              rw (resolve_digest_fresh digest now db st a expiry found fresh)
                (known, known.0 digest (a, expiry) found)
          | inr expired ↦
              let old : is_fresh now (lookup digest st.cache) ≡ false = rw found expired in
              rw (resolve_digest_loaded digest now db st old) loaded
        ]
      ]

  overlay_component-Known :
      (a : ℕ) (component : Option String) (db : Option Tables) (st : Store)
      → Known st
      → Known (overlay_component a component db st)
  overlay_component-Known a component db st (cached, stale) =
      let (c, s, n, kept) = overlay_component-bare a component db st in
      (
        λ digest v found.
            let (used, p) = cached digest v (rw c at found) in (rw n used, rw (kept v.0) p),
        λ digest b found.
            let (used, p) = stale digest b (rw s at found) in (rw n used, rw (kept b) p),
      )

  attribute-Known :
      (component : Option String) (db : Option Tables) (r : Result ℕ) (st : Store)
      → Known st
      → Known (attribute component db (r, st)).1
  attribute-Known component db (err e) st known = known
  attribute-Known component db (ok a) st known =
      overlay_component-Known a (or_text component (st.heap a).component) db st known

  Answers-Known : (digest : String) (r : Result ℕ) (st : Store) → Answers digest (r, st) → Known st
  Answers-Known digest (err e) st h = h
  Answers-Known digest (ok a) st h = h.0

  resolve_workspace-Known :
      (lib : Library) (header : Option Text) (now : ℕ) (db : Option Tables) (st : Store)
      → ((digest : String) (t : Tables) (c : WorkspaceContext)
          → db ≡ some t
          → load digest now t ≡ ok c
          → P digest (bare c))
      → Known st
      → Known (resolve_workspace lib header now db st).1
  resolve_workspace-Known lib header now db st good known =
      elim (Result-cases (extract_bearer header)) [
        | inr (e, failed) ↦ rw (resolve_workspace_failed lib header now db st e failed) known
        | inl (key, found) ↦
            let digest = lib.hash_key key in
            let (r, st') = resolve_digest digest now db st in
            rw (resolve_workspace_key lib header now db st key found) (
              Answers-Known digest r st'
                (resolve_digest-Answers digest now db st (good digest) known))
      ]

  jwt_context-Known :
      (claims : Claims) (ws : Option Workspace) (st : Store)
      → Known st
      → Known (jwt_context claims ws st).1
  jwt_context-Known claims none st known = known
  jwt_context-Known claims (some ws) st (cached, stale) = (
    λ digest v found. Holds-allocate _ st digest v.0 (cached digest v found),
    λ digest a found. Holds-allocate _ st digest a (stale digest a found),
  )

  -- A store that is known stays known over the answer of a token, and over one that raises.
  abbrev pub StillKnown : Option (Result ℕ × Store) → Type 0
  StillKnown none = ⊤
  StillKnown (some (r, st)) = Known st

  attribute_any-StillKnown :
      (component : Option String) (db : Option Tables) (r : Option (Result ℕ × Store))
      → StillKnown r
      → StillKnown (attribute_any component db r)
  attribute_any-StillKnown component db none known = known
  attribute_any-StillKnown component db (some (r, st)) known =
      attribute-Known component db r st known

  jwt_query-StillKnown :
      (claims : Claims) (id : String) (db : Option Tables) (st : Store)
      → Known st
      → StillKnown (jwt_query claims id db st)
  jwt_query-StillKnown claims id none st known = tt
  jwt_query-StillKnown claims id (some t) st known =
      jwt_context-Known claims (find_workspace id t.workspaces) st known

  jwt_named-StillKnown :
      (claims : Claims) (id : Option String) (db : Option Tables) (st : Store)
      → Known st
      → StillKnown (jwt_named claims id db st)
  jwt_named-StillKnown claims none db st known = known
  jwt_named-StillKnown claims (some id) db st known = elim (Bool-cases (truthy (some id))) [
    | inl named ↦ rw named (jwt_query-StillKnown claims id db st known)
    | inr empty ↦ rw empty known
  ]

  jwt_claims-StillKnown :
      (claims : Option Claims) (db : Option Tables) (st : Store)
      → Known st
      → StillKnown (jwt_claims claims db st)
  jwt_claims-StillKnown none db st known = known
  jwt_claims-StillKnown (some c) db st known =
      jwt_named-StillKnown c (or_text c.workspace_claim c.workspace_id) db st known

  resolve_jwt-StillKnown :
      (lib : Library) (token : Text) (db : Option Tables) (st : Store)
      → Known st
      → StillKnown (resolve_jwt lib token db st)
  unfolding resolve_jwt
  resolve_jwt-StillKnown lib token db st known =
      jwt_claims-StillKnown (lib.decode_bearer_jwt token) db st known

  -- A request of any kind, with a key, a JWT or neither, keeps the caches to what the database has
  -- given: if `P` holds of every context that the database of the request gives for a digest, and of
  -- what both caches hold under each digest, then it holds of what they hold afterwards, components apart.
  pub resolve_principal-StillKnown :
      (lib : Library) (header : Option Text) (component : Option String) (now : ℕ)
      (db : Option Tables) (st : Store)
      → ((digest : String) (t : Tables) (c : WorkspaceContext)
          → db ≡ some t
          → load digest now t ≡ ok c
          → P digest (bare c))
      → Known st
      → StillKnown (resolve_principal lib header component now db st)
  resolve_principal-StillKnown lib header component now db st good known =
      elim (Result-cases (extract_bearer header)) [
        | inr (e, failed) ↦
            rw (resolve_principal_failed lib header component now db st e failed) known
        | inl (token, found) ↦ elim (Bool-cases (lib.looks_like_jwt token)) [
          | inl signed ↦
              rw (resolve_principal_jwt lib header component now db st token found signed) (
                attribute_any-StillKnown component db (resolve_jwt lib token db st)
                  (resolve_jwt-StillKnown lib token db st known))
          | inr opaque ↦
              rw (resolve_principal_key lib header component now db st token found opaque) (
                attribute_any-StillKnown component db
                  (some (resolve_workspace lib header now db st))
                  (resolve_workspace-Known lib header now db st good known))
        ]
      ]
