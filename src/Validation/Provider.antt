-- ===== src/Validation/Provider.antt =====
-- `validate_provider_in` of gateway/core/admin_validation.py. A value that is no text is written by `str` in a way
-- that is no URL, no region and no version; a container that is no object counts as empty, as its
-- type forbids it.
use agnos_proxy_oss.Base.{
  ℕ, zero, suc, String, Bool, Option, none, some, List, [], ◌∷◌, ◌++◌, ◌&&◌, ◌||◌, not, leb,
  if◌then◌else◌, string_eq, list_eq, nat_eq, ◌==◌, contains, is_empty,
}
use agnos_proxy_oss.Base.Text.{Text, text, strip, lower}
use agnos_proxy_oss.Base.Json.{
  ℤ, pos, negsuc, Json, null, str, obj, Fields, end, get, get_or_null, is_truthy, or_else, int_of,
}
use agnos_proxy_oss.Validation.{
  Place, at, not_an_object, required, unknown_value, malformed, out_of_range, not_integers, Error,
  err, providers, is_filled, is_url, is_aws_region, is_api_version,
}
use agnos_proxy_oss.Validation.Tenants.{body_at, attr}

-- `["body", part, k]`
abbrev pub part_at : String → String → List Place
part_at part k = at "body" ∷ at part ∷ at k ∷ []

-- `REQUIRED_CREDS.get(provider, ())`
abbrev pub required_creds : String → List String
required_creds p =
    if contains
      ("anthropic" ∷ "openai" ∷ "gemini" ∷ "google_genai" ∷ "vertex_ai" ∷ "litellm_proxy" ∷ []) p
    then "api_key" ∷ []
    else if string_eq.beq p "bedrock"
    then "access_key" ∷ "secret_key" ∷ []
    else if string_eq.beq p "azure"
    then "api_key" ∷ "endpoint" ∷ []
    else []

-- `_has`
abbrev pub has : String → Fields → Bool
has k creds = is_filled (get_or_null k creds)

-- `str(v).lower()` and `str(v)`
abbrev pub shown : Json → Text
shown (str s) = text s
shown _ = text "?"

-- One of the three ways to sign in to Bedrock.
unfoldable pub has_bedrock_auth : Fields → Bool
unfolding get is_filled lower
has_bedrock_auth creds =
    (has "access_key" creds && has "secret_key" creds)
    || (has "bedrock_api_key" creds || has "api_key" creds)
    || ((lower (shown (get_or_null "auth_type" creds)) == text "sso") && has "profile_name" creds)

unfoldable pub missing_creds : Fields → List String → List Error
unfolding get is_filled
missing_creds creds [] = []
missing_creds creds (f ∷ fs) =
    (if has f creds then [] else err (part_at "credentials" f) required) ++ missing_creds creds fs

abbrev pub creds_errors : String → Fields → List Error
creds_errors p creds =
    if string_eq.beq p "bedrock"
    then if has_bedrock_auth creds then [] else err (body_at "credentials") required
    else missing_creds creds (required_creds p)

abbrev pub fields_of : Json → Fields
fields_of (obj d) = d
fields_of _ = end

-- `config.get(k) or creds.get(k)`
abbrev pub either : String → Fields → Fields → Json
either k config creds = or_else (get_or_null k config) (get_or_null k creds)

-- The test of a value that is there.
abbrev pub shape_errors : List Place → (Text → Bool) → Json → List Error
shape_errors loc is_shaped v =
    if is_truthy v && not (is_shaped (shown v)) then err loc malformed else []

abbrev pub is_blank_value : Json → Bool
is_blank_value v = not (is_truthy v) || is_empty (strip (shown v))

unfoldable pub base_url_errors : String → Fields → Fields → List Error
unfolding get strip is_url
base_url_errors p config creds =
    let base_url = either "base_url" config creds in
    (if string_eq.beq p "litellm_proxy" && is_blank_value base_url
      then err (part_at "config" "base_url") required
      else [])
    ++ shape_errors (part_at "config" "base_url") is_url base_url

unfoldable pub place_errors : String → Fields → Fields → List Error
unfolding get strip base_url_errors is_aws_region is_url is_api_version
place_errors p config creds =
    (if contains ("litellm_proxy" ∷ "ollama" ∷ "hosted_vllm" ∷ []) p
      then base_url_errors p config creds
      else [])
    ++ (if string_eq.beq p "vertex_ai"
          && is_blank_value (
              or_else (get_or_null "vertex_project" config)
                (get_or_null "vertex-ai-project" config))
        then err (part_at "config" "vertex_project") required
        else [])
    ++ (if string_eq.beq p "bedrock"
        then shape_errors (part_at "config" "region") is_aws_region (either "region" config creds)
        else [])
    ++ (if string_eq.beq p "azure"
        then shape_errors (part_at "config" "endpoint") is_url (either "endpoint" config creds)
          ++ shape_errors (part_at "config" "api_version") is_api_version
              (either "api_version" config creds)
        else [])

abbrev pub timeout_place : List Place
timeout_place = part_at "config" "request_timeout_seconds"

-- The bounds of a timeout that is a whole number.
abbrev pub seconds_errors : ℕ → Option ℤ → List Error
seconds_errors ceiling none = err timeout_place not_integers
seconds_errors ceiling (some (pos zero)) = err timeout_place out_of_range
seconds_errors ceiling (some (pos (suc n))) =
    if leb (suc n) ceiling then [] else err timeout_place out_of_range
seconds_errors ceiling (some (negsuc n)) = err timeout_place out_of_range

-- `rt not in (None, "")`
unfoldable pub timeout_errors : ℕ → Json → List Error
unfolding int_of
timeout_errors ceiling null = []
timeout_errors ceiling (str s) =
    if string_eq.beq s "" then [] else seconds_errors ceiling (int_of (str s))
timeout_errors ceiling v = seconds_errors ceiling (int_of v)

-- The provider's name, without the blanks around it.
abbrev pub named_errors : String → List Error
named_errors p =
    if string_eq.beq p ""
    then err (body_at "provider") required
    else if contains providers p
    then []
    else err (body_at "provider") unknown_value

abbrev pub container_errors : Json → List Error
container_errors (obj d) = []
container_errors v = if is_truthy v then err (body_at "credentials") not_an_object else []

-- `validate_provider_in`, from the stripped name of the provider on.
unfoldable pub validate_provider_in : ℕ → String → Fields → List Error
unfolding get has_bedrock_auth missing_creds place_errors timeout_errors
validate_provider_in ceiling p body =
    let creds = fields_of (attr "credentials" (obj end) body) in
    let config = fields_of (attr "config" (obj end) body) in
    named_errors p
    ++ container_errors (attr "credentials" (obj end) body)
    ++ creds_errors p creds
    ++ place_errors p config creds
    ++ timeout_errors ceiling (get_or_null "request_timeout_seconds" config)
