-- ===== src/Auth/Tests.antt =====
-- The key lookup on a concrete store.
use agnos_proxy_oss.Base.{
  ◌≡◌, refl, String, true, false, some, none, [], ◌∷◌, arith, list_eq, nat_eq, string_eq, ◌==◌,
  Bool-cases, inl, inr, ==_iff, ap, ◌∙◌, sym,
}
use mathlib.Core.Option.{some-injective}
use agnos_proxy_oss.Base.Dict.{lookup}
use agnos_proxy_oss.Base.Text.{text}
use agnos_proxy_oss.Base.Json.{end}
use agnos_proxy_oss.Auth.{
  Library, Store, Tables, load, find_key, find_workspace, WorkspaceContext, api_key, extract_bearer,
  ok, resolve_digest,
}
use agnos_proxy_oss.Auth.Principal.{invalidate_cache, resolve_principal}
use agnos_proxy_oss.Auth.Lookup.{
  Known, bare, Answers, StillKnown, resolve_digest-Answers, resolve_principal-StillKnown,
}
use agnos_proxy_oss.Auth.Component.{is_returned, resolve_principal-component, resolve_digest-stale}
use agnos_proxy_oss.Auth.Admin.{
  Cookies, Session, Request, platform_admin, parts, verify_session, Signed, require_admin, Granted,
  verify_session-Signed, require_admin-Granted,
}

abbrev context : WorkspaceContext
context = record {
  workspace_id = "w";
  config = end;
  roles = "member" ∷ [];
  key_id = some 1;
  user_id = none;
  component = none;
  auth_method = api_key;
}

-- A store in which the key with the digest "d" has been resolved.
abbrev warm : Store
warm = record {
  heap = λ a. context;
  next = 1;
  cache = ("d", (0, 100)) ∷ [];
  stale = ("d", 0) ∷ [];
  seen_components = [];
}

abbrev cold : Store
cold = record { heap = λ a. context; next = 0; cache = []; stale = []; seen_components = [] }

abbrev library : Library
library = record { hash_key = λ k. "d"; looks_like_jwt = λ k. false; decode_bearer_jwt = λ k. none }

-- The database knows one key, of the workspace "w".
abbrev tables : Tables
tables = record {
  api_keys =
      record {
        id = 1;
        sha256 = "d";
        workspace_id = "w";
        disabled = false;
        expires_at = some 900;
        roles = [];
      }
      ∷ [];
  workspaces = record { workspace_id = "w"; config = end } ∷ [];
}

-- The key with the digest "d" is one of "w", and there is no other.
abbrev Owned : String → WorkspaceContext → Type 0
Owned digest c = (digest ≡ "d") × (c.workspace_id ≡ "w")

tables-Owned :
    (digest : String) (c : WorkspaceContext) → load digest 200 tables ≡ ok c → Owned digest (bare c)
unfolding load find_key find_workspace
tables-Owned digest c loaded = elim (Bool-cases ("d" == digest)) [
  | inl known ↦ (sym ((==_iff "d" digest).0 known), ground (arith, loaded, known))
  | inr unknown ↦ ground (arith, loaded, unknown)
]

load-Owned :
    (digest : String) (t : Tables) (c : WorkspaceContext)
    → some tables ≡ some t
    → load digest 200 t ≡ ok c
    → Owned digest (bare c)
load-Owned digest t c e loaded =
    tables-Owned digest c (ap (load digest 200) (some-injective tables t e) ∙ loaded)

warm-Known : Known Owned warm
unfolding lookup
warm-Known = (
  λ digest v h. ground (arith, ==_iff digest "d"),
  λ digest a h. ground (arith, ==_iff digest "d"),
)

-- The entry of the cache is over at 200, so the database is asked.
resolve_digest-Answers_example : Answers Owned "d" (resolve_digest "d" 200 (some tables) warm)
resolve_digest-Answers_example =
    resolve_digest-Answers Owned "d" 200 (some tables) warm (load-Owned "d") warm-Known

resolve_principal-StillKnown_example :
    StillKnown Owned
      (resolve_principal library (some (text "Bearer k")) (some "billing") 200 (some tables) warm)
resolve_principal-StillKnown_example =
    resolve_principal-StillKnown Owned library (some (text "Bearer k")) (some "billing") 200
      (some tables) warm load-Owned warm-Known

bearer : extract_bearer (some (text "Bearer k")) ≡ ok (text "k")
unfolding extract_bearer
bearer = refl

hit : lookup "d" warm.cache ≡ some (0, 100)
unfolding lookup
hit = refl

stale_hit : lookup "d" warm.stale ≡ some 0
unfolding lookup
stale_hit = refl

resolve_principal-component_example :
    (st' : Store) × (st'' : Store) × (resolve_principal library
        (some (text "Bearer k"))
        (some "billing")
        5
        none
        warm
      ≡ some (ok 0, st'))
    × (resolve_principal library (some (text "Bearer k")) none 6 none st' ≡ some (ok 0, st''))
    × ((st''.heap 0).component ≡ some "billing")
resolve_principal-component_example =
    resolve_principal-component library (some (text "Bearer k")) "billing" 5 6 none none warm 0 refl
      (text "k", 100, bearer, refl, hit, refl) (text "k", 100, bearer, refl, hit, refl)

resolve_digest-stale_example :
    (is_returned (resolve_digest "d" 500 none warm).0 ≡ true)
    × (resolve_digest "d" 500 none (invalidate_cache warm) ≡ (ok 0, invalidate_cache warm))
resolve_digest-stale_example = resolve_digest-stale "d" 500 warm 0 stale_hit

abbrev cookies : Cookies
cookies = record {
  sign = λ header payload. header;
  claims = λ payload. some (record { sub = "ada"; roles = "admin" ∷ []; exp = 50 });
}

abbrev ada : Session
ada = record { sub = "ada"; roles = "admin" ∷ []; exp = 50 }

verifies : verify_session cookies 10 (text "h.p.h") ≡ some ada
unfolding verify_session
verifies = refl

verify_session-Signed_example : Signed cookies 10 (parts [] (text "h.p.h")) ada
verify_session-Signed_example = verify_session-Signed cookies 10 (text "h.p.h") ada verifies

abbrev with_token : Request
with_token = record { admin_token = some (text "t"); cookie = none; authorization = none }

let_in : (require_admin cookies library (text "t") with_token 10 none cold).0 ≡ some platform_admin
unfolding require_admin
let_in = refl

require_admin-Granted_example :
    Granted cookies library (text "t") with_token 10 none cold platform_admin
require_admin-Granted_example =
    require_admin-Granted cookies library (text "t") with_token 10 none cold platform_admin let_in
