-- ===== src/Credentials/Tests.antt =====
-- A rotation on a concrete store.
use agnos_proxy_oss.Base.{refl, ◌≡◌, some, none, [], ◌∷◌, string_eq, pair_eq}
use agnos_proxy_oss.Base.Dict.{lookup}
use agnos_proxy_oss.Base.Json.{end}
use agnos_proxy_oss.Credentials.{
  ProviderCredential, Store, invalidate, load, get_provider_credential,
}
use agnos_proxy_oss.Credentials.Rotation.{loaded, get_provider_credential-invalidate}

abbrev old : ProviderCredential
old = record { provider = "openai"; credentials = end; config = end; bifrost_key_name = none }

abbrev warm : Store
warm = record { cache = (("w", "openai"), (old, 90)) ∷ []; stale = (("w", "openai"), old) ∷ [] }

get_provider_credential-invalidate_example :
    ((get_provider_credential (λ s. none) "w" "openai" 10 none (invalidate (some "w") warm)).0
      ≡ loaded (load (λ s. none) "openai" none))
    × (lookup ("x", "openai") (invalidate (some "w") warm).cache
        ≡ lookup ("x", "openai") warm.cache)
    × (lookup ("x", "openai") (invalidate (some "w") warm).stale
        ≡ lookup ("x", "openai") warm.stale)
get_provider_credential-invalidate_example =
    get_provider_credential-invalidate (λ s. none) "w" "openai" 10 none warm "x" "openai" refl
