-- ===== src/Validation/Tenants.antt =====
-- The bodies of clients and workspaces in gateway/core/admin_validation.py. The rows of the database are the
-- parameter `client_exists`, and the providers that are configured for the workspace an argument.
use agnos_proxy_oss.Base.{
  String, Bool, true, false, none, some, List, [], ◌∷◌, ◌++◌, ◌&&◌, not, leb, if◌then◌else◌,
  string_eq, all, is_empty, length,
}
use agnos_proxy_oss.Base.Text.{Text, text, strip}
use agnos_proxy_oss.Base.Json.{
  Json, null, str, arr, obj, Fields, end, get, is_truthy, or_else, items, nil,
}
use agnos_proxy_oss.Registry.{with_default}
use agnos_proxy_oss.Validation.{
  Place, at, not_a_list, required, malformed, missing_row, not_in_map, too_long, Error, err,
  providers, stripped, is_filled, is_slug,
}
use agnos_proxy_oss.Validation.Alias.{validate_alias_map}
use agnos_proxy_oss.Validation.Blobs.{
  present, validate_guardrails_blob, validate_quotas, validate_budgets, validate_client_budgets,
  validate_rate_limits,
}

-- `["body", k]`
abbrev pub body_at : String → List Place
body_at k = at "body" ∷ at k ∷ []

-- `getattr(body, k, default)`
abbrev pub attr : String → Json → Fields → Json
attr k default body = with_default (get k body) default

abbrev pub slug_errors : List Place → Text → List Error
slug_errors loc s =
    if is_empty s then err loc required else if is_slug s then [] else err loc malformed

-- A name that a map must have: no error for a falsy one, or for a map that is no object.
abbrev pub is_key : Json → Fields → Bool
is_key (str s) d = elim (get s d) [ none ↦ false | some v ↦ true ]
is_key _ d = false

abbrev pub default_alias_errors : Json → Json → List Error
default_alias_errors dca (obj cm) =
    if is_truthy dca && not (is_key dca cm)
    then err (body_at "default_chat_alias") not_in_map
    else []
default_alias_errors dca _ = []

-- `not isinstance(rh, list) or not all(...)`
abbrev pub header_names_errors : Json → List Error
header_names_errors (arr xs) =
    if all is_filled (items xs) then [] else err (body_at "required_headers") not_a_list
header_names_errors v = if is_truthy v then err (body_at "required_headers") not_a_list else []

abbrev pub name_errors : Json → List Error
name_errors (str s) = if leb (length (text s)) 128 then [] else err (body_at "name") too_long
name_errors _ = []

module _ (client_exists : Text → Bool) where
  abbrev pub client_errors : Text → List Error
  client_errors c =
      if is_empty c
      then err (body_at "client_id") required
      else if client_exists c
      then []
      else err (body_at "client_id") missing_row

  -- `validate_workspace_create`
  unfoldable pub validate_workspace_create : Fields → List Error
  unfolding get strip is_slug validate_alias_map validate_guardrails_blob validate_quotas
      validate_budgets validate_rate_limits
  validate_workspace_create body =
      slug_errors (body_at "workspace_id") (stripped (attr "workspace_id" (str "") body))
      ++ client_errors (stripped (attr "client_id" null body))
      ++ validate_alias_map (body_at "chat_models") providers (attr "chat_models" (obj end) body)
      ++ validate_alias_map (body_at "embedding_models") providers
          (attr "embedding_models" (obj end) body)
      ++ validate_guardrails_blob (body_at "guardrails") (attr "guardrails" (obj end) body)
      ++ validate_quotas (body_at "quotas") (attr "quotas" (obj end) body)
      ++ validate_budgets (body_at "budgets") (attr "budgets" (obj end) body)
      ++ validate_rate_limits (body_at "rate_limits") (attr "rate_limits" (obj end) body)
      ++ default_alias_errors (attr "default_chat_alias" null body)
          (or_else (attr "chat_models" (obj end) body) (obj end))

  -- The client that a patch names.
  abbrev pub reassigned_errors : Json → List Error
  reassigned_errors (str c) =
      if is_truthy (str c) && not (client_exists (text c))
      then err (body_at "client_id") missing_row
      else []
  reassigned_errors v = if is_truthy v then err (body_at "client_id") missing_row else []

  -- `validate_workspace_patch`, with the workspace's stored models and default alias.
  unfoldable pub validate_workspace_patch : List String → Json → Json → Fields → List Error
  unfolding get validate_alias_map validate_guardrails_blob validate_quotas validate_budgets
      validate_rate_limits
  validate_workspace_patch configured chat_models default_chat_alias body =
      present (get "client_id" body) reassigned_errors
      ++ present (get "chat_models" body) (validate_alias_map (body_at "chat_models") configured)
      ++ present (get "embedding_models" body)
          (validate_alias_map (body_at "embedding_models") configured)
      ++ present (get "guardrails" body) (validate_guardrails_blob (body_at "guardrails"))
      ++ present (get "quotas" body) (validate_quotas (body_at "quotas"))
      ++ present (get "budgets" body) (validate_budgets (body_at "budgets"))
      ++ present (get "rate_limits" body) (validate_rate_limits (body_at "rate_limits"))
      ++ default_alias_errors (attr "default_chat_alias" default_chat_alias body)
          (attr "chat_models" (or_else chat_models (obj end)) body)

-- `validate_client`
unfoldable pub validate_client : Fields → List Error
unfolding get strip is_slug is_filled validate_client_budgets validate_rate_limits
validate_client body =
    slug_errors (body_at "client_id") (stripped (attr "client_id" (str "") body))
    ++ name_errors (attr "name" (str "") body)
    ++ validate_client_budgets (body_at "budgets") (attr "budgets" (obj end) body)
    ++ validate_rate_limits (body_at "rate_limits") (attr "rate_limits" (obj end) body)
    ++ header_names_errors (attr "required_headers" (arr nil) body)

-- `validate_client_patch`
unfoldable pub validate_client_patch : Fields → List Error
unfolding get is_filled validate_client_budgets validate_rate_limits
validate_client_patch body =
    present (get "budgets" body) (validate_client_budgets (body_at "budgets"))
    ++ present (get "rate_limits" body) (validate_rate_limits (body_at "rate_limits"))
    ++ present (get "required_headers" body) header_names_errors
