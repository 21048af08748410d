-- ===== src/Validation/Tests.antt =====
-- A map of one alias, and a provider with a timeout.
use agnos_proxy_oss.Base.{◌≤◌, ◌≡◌, refl, true, false, [], ◌∷◌, string_eq}
use agnos_proxy_oss.Base.Text.{text}
use agnos_proxy_oss.Base.Json.{str, obj, Fields, end, field, get, int_of}
use agnos_proxy_oss.Registry.{Settings, alias_targets, resolve_timeout_s}
use agnos_proxy_oss.Validation.{at, is_slug, is_url, is_aws_region, is_api_version}
use agnos_proxy_oss.Validation.Alias.{validate_alias_map}
use agnos_proxy_oss.Validation.Provider.{validate_provider_in}
use agnos_proxy_oss.Validation.Resolvable.{Resolves, validate_alias_map-Resolves}
use agnos_proxy_oss.Validation.Deadline.{validate_provider_in-resolve_timeout_s}

-- The patterns on concrete texts: a name of two characters is refused, and so is a region with four
-- parts.
is_slug_two : is_slug (text "ab") ≡ false
unfolding is_slug
is_slug_two = refl

is_slug_three : is_slug (text "a-b") ≡ true
unfolding is_slug
is_slug_three = refl

is_aws_region_govcloud : is_aws_region (text "us-gov-west-1") ≡ false
unfolding is_aws_region
is_aws_region_govcloud = refl

is_aws_region_east : is_aws_region (text " us-east-1 ") ≡ true
unfolding is_aws_region
is_aws_region_east = refl

is_url_local : is_url (text "http://localhost:4000") ≡ true
unfolding is_url
is_url_local = refl

is_api_version_preview : is_api_version (text "2024-10-21-preview") ≡ true
unfolding is_api_version
is_api_version_preview = refl

abbrev target : Fields
target = field "provider" (str "openai") (field "model_id" (str "gpt-4o") end)

abbrev models : Fields
models = field "a" (obj target) end

validate_alias_map-Resolves_example : Resolves ("openai" ∷ []) (alias_targets models "a")
unfolding validate_alias_map get alias_targets
validate_alias_map-Resolves_example =
    validate_alias_map-Resolves (at "body" ∷ []) ("openai" ∷ []) models "a" refl
      (("gpt-4o", refl), tt)

abbrev settings : Settings
settings = record { default_timeout_s = 60; max_timeout_s = 600 }

abbrev config : Fields
config = field "request_timeout_seconds" (str "120") end

abbrev body : Fields
body = field "credentials" (obj (field "api_key" (str "k") end)) (field "config" (obj config) end)

validate_provider_in-resolve_timeout_s_example :
    (1 ≤ 120) × (120 ≤ settings.max_timeout_s) × (resolve_timeout_s settings config ≡ 120)
unfolding validate_provider_in get int_of
validate_provider_in-resolve_timeout_s_example =
    validate_provider_in-resolve_timeout_s settings "openai" body 120 refl refl
