-- ===== src/Auth.antt =====
-- gateway/core/auth.py: the key lookup with its two caches, the workspace JWT and the component of a
-- request, on an explicit heap, since a cached context is one object that later requests share and
-- change. The tables are lists of rows; `none` stands for a database that raises or misses the
-- deadline. SHA-256, and the base64, JSON and signature libraries behind a JWT, are the parameter
-- `Library`; the claims of a JWT have the types that its issuer documents. Of a context, the columns
-- that no code here looks into are one value, `config`.
pub mod Principal
pub mod Lookup
pub mod Component
pub mod Admin
mod Tests
use agnos_proxy_oss.Base.{
  ℕ, zero, suc, ◌+◌, ◌≤◌, String, Bool, true, false, Option, none, some, List, [], ◌∷◌, ◌++◌, ◌&&◌,
  ◌||◌, not, ltb, leb, eqb, if◌then◌else◌, ◌==◌, string_eq, nat_eq, list_eq, pair_eq, truthy,
  contains, is_empty, keep,
}
use agnos_proxy_oss.Base.Dict.{Dict, lookup, insert}
use agnos_proxy_oss.Base.Text.{Text, text, lower, strip, is_blank}
use agnos_proxy_oss.Base.Json.{Json, Fields, str, null, get, get_or_null, obj}

pub data Method : Type 0 where
  api_key : Method
  jwt : Method

-- A row of the table of workspaces.
pub record Workspace : Type 0 where
  pub workspace_id : String
  pub config : Fields

-- A row of the table of keys.
pub record ApiKey : Type 0 where
  pub id : ℕ
  pub sha256 : String
  pub workspace_id : String
  pub disabled : Bool
  pub expires_at : Option ℕ
  pub roles : List String

pub record Tables : Type 0 where
  pub api_keys : List ApiKey
  pub workspaces : List Workspace

pub record WorkspaceContext : Type 0 where
  pub workspace_id : String
  pub config : Fields
  pub roles : List String
  pub key_id : Option ℕ
  pub user_id : Option String
  pub component : Option String
  pub auth_method : Method

pub data Error : Type 0 where
  -- 401, with the reason.
  unauthorized : String → Error
  -- 503
  unavailable : Error

pub data Result {ℓ} (A : Type ℓ) : Type ℓ where
  ok : A → Result A
  err : Error → Result A

-- The module's dictionaries, and the contexts that have been made, by their address.
pub record Store : Type 0 where
  pub heap : ℕ → WorkspaceContext
  pub next : ℕ
  pub cache : Dict String (ℕ × ℕ)
  pub stale : Dict String ℕ
  pub seen_components : List (String × String)

pub record Claims : Type 0 where
  -- The claim that the settings name, and `workspace_id`.
  pub workspace_claim : Option String
  pub workspace_id : Option String
  pub roles : List String
  pub scope : List String
  pub sub : Option String
  pub component_claim : Option String

pub record Library : Type 0 where
  -- `hash_key`
  pub hash_key : Text → String
  -- `looks_like_jwt` and `decode_bearer_jwt`
  pub looks_like_jwt : Text → Bool
  pub decode_bearer_jwt : Text → Option Claims

abbrev pub ttl : ℕ
ttl = 30

abbrev pub write : ℕ → WorkspaceContext → (ℕ → WorkspaceContext) → ℕ → WorkspaceContext
write a c heap b = if eqb b a then c else heap b

-- A new object.
abbrev pub allocate : WorkspaceContext → Store → ℕ × Store
allocate c st = (st.next, record st { heap = write st.next c st.heap; next = suc st.next })

-- `s.split()`
unfoldable pub words : Text → Text → List Text
words word [] = if is_empty word then [] else word ∷ []
words word (c ∷ s) =
    let broken = words [] s in
    let longer = words (word ++ (c ∷ [])) s in
    if is_blank c then if is_empty word then broken else word ∷ broken else longer

-- `_extract_bearer`
unfoldable pub extract_bearer : Option Text → Result Text
unfolding words strip lower
extract_bearer none = err (unauthorized "Missing Authorization header")
extract_bearer (some []) = err (unauthorized "Missing Authorization header")
extract_bearer (some (c ∷ s)) = elim (words [] (c ∷ s)) [
  | [] ↦ ok (strip (c ∷ s))
  | scheme ∷ rest ↦ elim rest [
    | [] ↦ ok (strip (c ∷ s))
    | token ∷ more ↦
        if is_empty more && (lower scheme == text "bearer") then ok token else ok (strip (c ∷ s))
  ]
]

-- `_ctx_from_workspace`
abbrev pub ctx_from_workspace :
    Workspace → List String → Option ℕ → Option String → Method → WorkspaceContext
ctx_from_workspace ws roles key_id user_id method = record {
  workspace_id = ws.workspace_id;
  config = ws.config;
  roles = if is_empty roles then "member" ∷ [] else roles;
  key_id = key_id;
  user_id = user_id;
  component = none;
  auth_method = method;
}

unfoldable pub find_key : String → List ApiKey → Option ApiKey
find_key digest [] = none
find_key digest (k ∷ ks) =
    if k.sha256 == digest && not k.disabled then some k else find_key digest ks

unfoldable pub find_workspace : String → List Workspace → Option Workspace
find_workspace id [] = none
find_workspace id (w ∷ ws) = if w.workspace_id == id then some w else find_workspace id ws

-- `key_row.expires_at is not None and key_row.expires_at < utcnow()`
abbrev pub is_expired : ℕ → Option ℕ → Bool
is_expired now none = false
is_expired now (some t) = ltb t now

-- `_load`
unfoldable pub load : String → ℕ → Tables → Result WorkspaceContext
unfolding find_key find_workspace
load digest now db = elim (find_key digest db.api_keys) [
  | none ↦ err (unauthorized "Invalid API key.")
  | some k ↦ elim (is_expired now k.expires_at) [
    | true ↦ err (unauthorized "API key expired.")
    | false ↦ elim (find_workspace k.workspace_id db.workspaces) [
      | none ↦ err (unauthorized "Workspace not found.")
      | some ws ↦ ok (ctx_from_workspace ws k.roles (some k.id) none api_key)
    ]
  ]
]

-- What a database that is down leaves: the expired entry of the cache, or the stale copy.
abbrev pub fall_back : Option (ℕ × ℕ) → Option ℕ → Store → Result ℕ × Store
fall_back (some (a, expiry)) old st = (ok a, st)
fall_back none (some a) st = (ok a, st)
fall_back none none st = (err unavailable, st)

-- The answer of `_load`, kept in both caches if it is a context.
abbrev pub remember : String → ℕ → Result WorkspaceContext → Store → Result ℕ × Store
remember digest now (err e) st = (err e, st)
remember digest now (ok c) st =
    let (a, st') = allocate c st in
    (
      ok a,
      record st' {
        cache = insert digest (a, now + ttl) st'.cache;
        stale = insert digest a st'.stale;
      },
    )

-- The `try` of `resolve_workspace` and what follows it.
abbrev pub from_database : String → ℕ → Option Tables → Store → Result ℕ × Store
from_database digest now none st = fall_back (lookup digest st.cache) (lookup digest st.stale) st
from_database digest now (some t) st = remember digest now (load digest now t) st

-- `resolve_workspace` from the digest on: the address of the context.
unfoldable pub resolve_digest : String → ℕ → Option Tables → Store → Result ℕ × Store
unfolding lookup insert load
resolve_digest digest now db st =
    let loaded = from_database digest now db st in
    elim (lookup digest st.cache) [
      | none ↦ loaded
      | some (a, expiry) ↦ if ltb now expiry then (ok a, st) else loaded
    ]

unfoldable pub resolve_workspace :
    Library → Option Text → ℕ → Option Tables → Store → Result ℕ × Store
unfolding extract_bearer resolve_digest
resolve_workspace lib header now db st = elim (extract_bearer header) [
  | err e ↦ (err e, st)
  | ok key ↦ resolve_digest (lib.hash_key key) now db st
]
