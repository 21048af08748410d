-- ===== src/Credentials.antt =====
-- gateway/core/credentials.py: the credentials of a workspace for a provider, behind a cache and a
-- long-lived copy for the time when the database is down. The database is an answer: `none` if it
-- raises or misses the deadline, else the row or none. The cipher is a parameter, which raises with
-- `none`.
pub mod Rotation
mod Tests
use agnos_proxy_oss.Base.{
  ℕ, ◌+◌, String, Bool, true, false, Option, none, some, List, [], ◌∷◌, ltb, not, if◌then◌else◌,
  ◌==◌, string_eq, pair_eq,
}
use agnos_proxy_oss.Base.Dict.{Dict, lookup, insert, keep_keys}
use agnos_proxy_oss.Base.Json.{Fields}

pub record ProviderCredential : Type 0 where
  pub provider : String
  pub credentials : Fields
  pub config : Fields
  pub bifrost_key_name : Option String

-- The columns of `WorkspaceProviderConfig`.
pub record Row : Type 0 where
  pub encrypted_credentials : String
  pub config : Fields
  pub bifrost_key_name : Option String

abbrev pub Key : Type 0
Key = String × String

pub record Store : Type 0 where
  pub cache : Dict Key (ProviderCredential × ℕ)
  pub stale : Dict Key ProviderCredential

abbrev pub ttl : ℕ
ttl = 60

-- `invalidate`
unfoldable pub invalidate : Option String → Store → Store
unfolding keep_keys
invalidate none st = record { cache = []; stale = [] }
invalidate (some workspace_id) st = record {
  cache = keep_keys (λ k. not (k.0 == workspace_id)) st.cache;
  stale = keep_keys (λ k. not (k.0 == workspace_id)) st.stale;
}

-- How `_load` ends: with an exception, with no row, or with a credential.
pub data Loaded : Type 0 where
  raised : Loaded
  absent : Loaded
  found : ProviderCredential → Loaded

abbrev pub decrypted : String → Row → Option Fields → Loaded
decrypted provider row none = raised
decrypted provider row (some credentials) = found (record {
  provider = provider;
  credentials = credentials;
  config = row.config;
  bifrost_key_name = row.bifrost_key_name;
})

-- `_load`
abbrev pub load : (String → Option Fields) → String → Option (Option Row) → Loaded
load decrypt provider none = raised
load decrypt provider (some none) = absent
load decrypt provider (some (some row)) = decrypted provider row (decrypt row.encrypted_credentials)

abbrev pub fall_back :
    Option (ProviderCredential × ℕ) → Option ProviderCredential → Option ProviderCredential
fall_back (some (c, expiry)) old = some c
fall_back none old = old

abbrev pub is_live : ℕ → Option (ProviderCredential × ℕ) → Bool
is_live now none = false
is_live now (some (c, expiry)) = ltb now expiry

abbrev pub entry : Option (ProviderCredential × ℕ) → Option ProviderCredential
entry none = none
entry (some (c, expiry)) = some c

-- What `get_provider_credential` does with the answer of `_load`.
abbrev pub after_load : Key → ℕ → Loaded → Store → Option ProviderCredential × Store
after_load ck now raised st = (fall_back (lookup ck st.cache) (lookup ck st.stale), st)
after_load ck now absent st = (none, st)
after_load ck now (found c) st =
    (some c, record { cache = insert ck (c, now + ttl) st.cache; stale = insert ck c st.stale })

unfoldable pub get_provider_credential :
    (String → Option Fields)
    → String
    → String
    → ℕ
    → Option (Option Row)
    → Store
    → Option ProviderCredential × Store
unfolding lookup insert
get_provider_credential decrypt workspace_id provider now db st =
    let ck : Key = (workspace_id, provider) in
    if is_live now (lookup ck st.cache)
    then (entry (lookup ck st.cache), st)
    else after_load ck now (load decrypt provider db) st
