-- ===== src/Auth/Component.antt =====
-- What one request leaves for the next: the component and the stale copies.
use agnos_proxy_oss.Base.{
  ℕ, ◌≡◌, refl, String, Bool, true, false, Option, none, some, arith, ltb, string_eq, truthy,
  pair_eq,
}
use agnos_proxy_oss.Base.Dict.{lookup}
use agnos_proxy_oss.Base.Text.{Text}
use agnos_proxy_oss.Auth.{Library, Result, Store, Tables, err, extract_bearer, ok, resolve_digest}
use agnos_proxy_oss.Auth.Principal.{
  attribute, invalidate_cache, overlay_component, resolve_principal,
}
use agnos_proxy_oss.Auth.Lookup.{
  resolve_principal_key, resolve_workspace_key, resolve_digest_fresh, overlay_component-bare,
}

-- A component that is named is the component of the context.
overlay_component-component :
    (a : ℕ) (name : String) (db : Option Tables) (st : Store)
    → truthy (some name) ≡ true
    → ((overlay_component a (some name) db st).heap a).component ≡ some name
unfolding overlay_component
overlay_component-component a name db st named = ground arith

-- A key whose context is in the cache.
abbrev pub Cached : Library → Option Text → ℕ → Store → ℕ → Type 0
Cached lib header now st a =
    (key : Text) × (expiry : ℕ) × (extract_bearer header ≡ ok key)
    × (lib.looks_like_jwt key ≡ false)
    × (lookup (lib.hash_key key) st.cache ≡ some (a, expiry))
    × (ltb now expiry ≡ true)

pub resolve_principal_hit :
    (lib : Library) (header : Option Text) (component : Option String) (now : ℕ)
    (db : Option Tables) (st : Store) (a : ℕ)
    → Cached lib header now st a
    → resolve_principal lib header component now db st ≡ some (attribute component db (ok a, st))
resolve_principal_hit lib header component now db st a (key, expiry, found, opaque, hit, fresh) =
    rw
      (
        resolve_principal_key lib header component now db st key found opaque,
        resolve_workspace_key lib header now db st key found,
        resolve_digest_fresh (lib.hash_key key) now db st a expiry hit fresh,
      )
      refl

-- A component outlives its request: if a request names one in its header, then a later one with the
-- same key, while the key's context is cached, that names none is attributed to it as well.
pub resolve_principal-component :
    (lib : Library) (header : Option Text) (name : String) (now later : ℕ) (db db' : Option Tables)
    (st : Store) (a : ℕ)
    → truthy (some name) ≡ true
    → Cached lib header now st a
    → Cached lib header later st a
    → (st' : Store) × (st'' : Store) × (resolve_principal lib header (some name) now db st
        ≡ some (ok a, st'))
      × (resolve_principal lib header none later db' st' ≡ some (ok a, st''))
      × ((st''.heap a).component ≡ some name)
resolve_principal-component lib header name now later db db' st a named first second =
    let st' = overlay_component a (some name) db st in
    let (key, expiry, found, opaque, hit, fresh) = second in
    let set = overlay_component-component a name db st named in
    let (c, s, n, kept) = overlay_component-bare a (some name) db st in
    (
      st',
      overlay_component a (some name) db' st',
      rw (resolve_principal_hit lib header (some name) now db st a first, named) refl,
      rw
          (
            resolve_principal_hit lib header none later db' st' a
                (key, expiry, found, opaque, rw c hit, fresh),
            set,
          )
          refl,
      overlay_component-component a name db' st' named,
    )

abbrev pub is_returned : Result ℕ → Bool
is_returned (ok a) = true
is_returned (err e) = false

-- While the database is down a key that was ever resolved is still let in: with a stale copy for
-- its digest the lookup returns a context whatever the time is, also right after
-- `invalidate_cache`.
pub resolve_digest-stale :
    (digest : String) (now : ℕ) (st : Store) (a : ℕ)
    → lookup digest st.stale ≡ some a
    → (is_returned (resolve_digest digest now none st).0 ≡ true)
      × (resolve_digest digest now none (invalidate_cache st) ≡ (ok a, invalidate_cache st))
unfolding resolve_digest invalidate_cache
resolve_digest-stale digest now st a old = (ground arith, rw old refl)
