-- ===== src/Registry/Tests.antt =====
-- The registry on a concrete workspace.
use agnos_proxy_oss.Base.{◌≡◌, ◌⊎◌, refl, String, true, some, none, List, [], ◌∷◌}
use agnos_proxy_oss.Base.Json.{Json, Fields, end, field, str, int, pos, obj, arr, nil, cons}
use agnos_proxy_oss.Base.Text.{strip}
use agnos_proxy_oss.Registry.{ResolvedTarget, Settings, Workspace, alias_targets, new_target, ok}
use agnos_proxy_oss.Registry.Resolve.{has_char, is_default, requested, resolve_chat_targets}
use agnos_proxy_oss.Registry.Routing.{Listed, resolve_chat_targets-Listed}

abbrev limits : Settings
limits = record { default_timeout_s = 60; max_timeout_s = 600 }

abbrev provider_config : Fields
provider_config = field "request_timeout_seconds" (int (pos 90)) end

abbrev spec : String → Json
spec provider = obj (field "provider" (str provider) (field "model_id" (str "m") end))

abbrev ws : Workspace
ws = record {
  workspace_id = "w";
  chat_models = field "fast" (arr (cons (spec "a") (cons (spec "b") nil))) end;
  embedding_models = end;
  default_chat_alias = some "fast";
}

abbrev resolved : List ResolvedTarget
resolved =
    record (new_target "a" "m") { workspace_id = some "w" }
    ∷ record (new_target "b" "m") { workspace_id = some "w" }
    ∷ []

resolves : resolve_chat_targets (λ ws. none) ws (some "fast") ≡ ok ("fast", resolved)
unfolding resolve_chat_targets strip
resolves = refl

resolve_chat_targets-Listed_example :
    (("fast" ≡ requested (some "fast"))
      ⊎ ((is_default (requested (some "fast")) ≡ true) × (ws.default_chat_alias ≡ some "fast")))
    × Listed ws (alias_targets ws.chat_models "fast") resolved
unfolding has_char
resolve_chat_targets-Listed_example =
    resolve_chat_targets-Listed (λ ws. none) ws (some "fast") "fast" resolved refl resolves
