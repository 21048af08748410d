-- ===== src/Credentials/Rotation.antt =====
-- What a credential that was rotated or deleted leaves behind.
use agnos_proxy_oss.Base.{
  ℕ, ◌≡◌, refl, String, Bool, false, Option, none, some, not, ◌==◌, string_eq, pair_eq, ==_refl,
}
use agnos_proxy_oss.Base.Dict.{lookup, lookup-keep_keys}
use agnos_proxy_oss.Base.Json.{Fields}
use agnos_proxy_oss.Credentials.{
  ProviderCredential, Row, Key, Store, invalidate, Loaded, raised, absent, found, load, after_load,
  get_provider_credential,
}

-- What a load gives to a store that holds nothing for the key.
abbrev pub loaded : Loaded → Option ProviderCredential
loaded raised = none
loaded absent = none
loaded (found c) = some c

module _ (workspace_id provider : String) (st : Store) where
  abbrev k : Key
  k = (workspace_id, provider)

  cache-invalidate : lookup k (invalidate (some workspace_id) st).cache ≡ none
  unfolding invalidate
  cache-invalidate =
      rw
        (lookup-keep_keys (λ (j : Key). not (j.0 == workspace_id)) k st.cache, ==_refl workspace_id)
        refl

  stale-invalidate : lookup k (invalidate (some workspace_id) st).stale ≡ none
  unfolding invalidate
  stale-invalidate =
      rw
        (lookup-keep_keys (λ (j : Key). not (j.0 == workspace_id)) k st.stale, ==_refl workspace_id)
        refl

after_load-loaded :
    (ck : Key) (now : ℕ) (l : Loaded) (st : Store)
    → lookup ck st.cache ≡ none
    → lookup ck st.stale ≡ none
    → (after_load ck now l st).0 ≡ loaded l
after_load-loaded ck now raised st c s = rw (c, s) refl
after_load-loaded ck now absent st c s = refl
after_load-loaded ck now (found a) st c s = refl

get_after_miss :
    (decrypt : String → Option Fields) (workspace_id provider : String) (now : ℕ)
    (db : Option (Option Row)) (st : Store)
    → lookup (workspace_id, provider) st.cache ≡ none
    → get_provider_credential decrypt workspace_id provider now db st
      ≡ after_load (workspace_id, provider) now (load decrypt provider db) st
unfolding get_provider_credential
get_after_miss decrypt workspace_id provider now db st c = rw (get_provider_credential, c) refl

invalidate_other :
    (workspace_id other p : String) (st : Store)
    → (other == workspace_id) ≡ false
    → let st' = invalidate (some workspace_id) st in
      (lookup (other, p) st'.cache ≡ lookup (other, p) st.cache)
      × (lookup (other, p) st'.stale ≡ lookup (other, p) st.stale)
unfolding invalidate
invalidate_other workspace_id other p st h =
    let keep : Key → Bool = λ k. not (k.0 == workspace_id) in
    (
      rw (lookup-keep_keys keep (other, p) st.cache, h) refl,
      rw (lookup-keep_keys keep (other, p) st.stale, h) refl,
    )

-- After the keys of a workspace are invalidated the next lookup for it gives what the database
-- gives, and nothing if the database is down: neither cache serves an old credential. What is
-- cached for another workspace is not touched.
pub get_provider_credential-invalidate :
    (decrypt : String → Option Fields) (workspace_id provider : String) (now : ℕ)
    (db : Option (Option Row)) (st : Store) (other p : String)
    → (other == workspace_id) ≡ false
    → let st' = invalidate (some workspace_id) st in
      ((get_provider_credential decrypt workspace_id provider now db st').0
        ≡ loaded (load decrypt provider db))
      × (lookup (other, p) st'.cache ≡ lookup (other, p) st.cache)
      × (lookup (other, p) st'.stale ≡ lookup (other, p) st.stale)
get_provider_credential-invalidate decrypt workspace_id provider now db st other p h =
    let st' = invalidate (some workspace_id) st in
    let c = cache-invalidate workspace_id provider st in
    let ck : Key = (workspace_id, provider) in
    let (same_cache, same_stale) = invalidate_other workspace_id other p st h in
    (
      rw (get_after_miss decrypt workspace_id provider now db st' c) (
          after_load-loaded ck now (load decrypt provider db) st' c
            (stale-invalidate workspace_id provider st)),
      same_cache,
      same_stale,
    )
