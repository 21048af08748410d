-- ===== src/Registry.antt =====
-- gateway/core/registry.py: from a request to an ordered list of provider targets. The workspace's
-- model maps are JSON documents; a requested model is a text or absent. `random.choices` is the
-- parameter `choose`: the index that it draws for the weights.
pub mod Resolve
pub mod Timeout
pub mod Routing
mod Tests
use Prim.Native.Char.{code}
use agnos_proxy_oss.Base.{
  ℕ, zero, suc, ◌-◌, ◌*◌, max, min, String, Bool, true, false, Option, none, some, List, [], ◌∷◌,
  ◌&&◌, ◌||◌, not, eqb, ltb, if◌then◌else◌, map, any, string_eq, length, is_empty,
}
use agnos_proxy_oss.Base.Text.{text, strip}
use agnos_proxy_oss.Base.Json
use agnos_proxy_oss.Base.Json.{
  ℤ, pos, negsuc, Json, null, bool, int, float, str, arr, obj, Items, cons, Fields, end, field, get,
  get_or_null, is_truthy, or_else, items, int_of,
}

-- What the module reads of `settings`, in seconds.
pub record Settings : Type 0 where
  pub default_timeout_s : ℕ
  pub max_timeout_s : ℕ

abbrev pub clamp : Settings → ℤ → ℕ
clamp s (pos n) = max 1 (min n s.max_timeout_s)
clamp s (negsuc n) = 1

abbrev pub timeout_value : Settings → Json → ℕ
timeout_value s null = clamp s (pos s.default_timeout_s)
timeout_value s raw =
    if string_eq.beq (elim raw [ str t ↦ t | _ ↦ "other" ]) ""
    then clamp s (pos s.default_timeout_s)
    else elim (int_of raw) [ none ↦ clamp s (pos s.default_timeout_s) | some v ↦ clamp s v ]

-- `resolve_timeout_s`; no config is the empty one.
unfoldable pub resolve_timeout_s : Settings → Fields → ℕ
unfolding get int_of
resolve_timeout_s s cfg = timeout_value s (
    or_else (get_or_null "request_timeout_seconds" cfg)
      (get_or_null "default_request_timeout_in_seconds" cfg))

-- A weight is a number of millionths.
pub record ResolvedTarget : Type 0 where
  pub provider : String
  pub model_id : String
  pub context_window : Json
  pub weight : ℤ
  pub credentials : Fields
  pub config : Fields
  pub bifrost_key_name : Option String
  pub workspace_id : Option String
  pub region : Json
  pub base_url : Json
  pub api_version : Json

abbrev pub new_target : String → String → ResolvedTarget
new_target provider model_id = record {
  provider = provider;
  model_id = model_id;
  context_window = int (pos 100_000);
  weight = pos 1_000_000;
  credentials = end;
  config = end;
  bifrost_key_name = none;
  workspace_id = none;
  region = null;
  base_url = null;
  api_version = null;
}

-- `ResolvedTarget.hydrate_from_config`
unfoldable pub hydrate_from_config : ResolvedTarget → ResolvedTarget
hydrate_from_config t = record t {
  region =
      or_else (or_else (get_or_null "region" t.credentials) (get_or_null "region" t.config))
        t.region;
  base_url = or_else (get_or_null "base_url" t.config) t.base_url;
  api_version = or_else (get_or_null "api_version" t.config) t.api_version;
}

-- What the module reads of a `WorkspaceContext`.
pub record Workspace : Type 0 where
  pub workspace_id : String
  pub chat_models : Fields
  pub embedding_models : Fields
  pub default_chat_alias : Option String

-- `HTTPException` by its status and cause, and the exceptions that escape: a missing key, a value
-- of another type, and `random.choices` over weights that it cannot use.
pub data Error : Type 0 where
  default_alias_missing no_chat_models model_not_registered : Error
  key_error : String → Error
  type_error value_error : Error

pub data Result {ℓ} (A : Type ℓ) : Type ℓ where
  ok : A → Result A
  err : Error → Result A

infixl 5 ◌>>=◌
abbrev pub ◌>>=◌ {ℓ κ} : {A : Type ℓ} {B : Type κ} → Result A → (A → Result B) → Result B
ok a >>= f = f a
err e >>= f = err e

-- The status of the response that an error becomes; an exception that escapes is a 500.
abbrev pub status_of : Error → ℕ
status_of default_alias_missing = 400
status_of no_chat_models = 400
status_of model_not_registered = 404
status_of _ = 500

-- `_alias_targets`: no specs for an alias that is missing or falsy.
unfoldable pub alias_targets : Fields → String → List Json
unfolding get
alias_targets models alias = elim (get alias models) [
  | none ↦ []
  | some spec ↦ if is_truthy spec then elim spec [ arr xs ↦ items xs | other ↦ other ∷ [] ] else []
]

-- `s[key]`. A value that is no text is taken for the `TypeError` that its first use raises.
unfoldable pub text_at : String → Fields → Result String
unfolding get
text_at key s = elim (get key s) [
  | none ↦ err (key_error key)
  | some v ↦ elim v [ str t ↦ ok t | _ ↦ err type_error ]
]

abbrev millionths : ℤ → ℤ
millionths (pos n) = pos (n * 1_000_000)
millionths (negsuc n) = negsuc (suc n * 1_000_000 - 1)

-- `float(s.get("weight", 1) or 1)`. A weight that is a text, which the validation refuses, is taken
-- for one that is no number.
abbrev pub weight_of : Json → Result ℤ
weight_of (int n) = ok (millionths n)
weight_of (float m) = ok m
weight_of (bool b) = ok (pos 1_000_000)
weight_of _ = err value_error

abbrev pub with_default : Option Json → Json → Json
with_default none d = d
with_default (some v) d = v

-- The target of one spec.
unfoldable pub target_of : Json → Result ResolvedTarget
unfolding text_at get
target_of (obj s) = do
  provider ← text_at "provider" s
  model_id ← text_at "model_id" s
  weight ← weight_of (or_else (with_default (get "weight" s) (int (pos 1))) (int (pos 1)))
  ok (record (new_target provider model_id) {
    context_window = with_default (get "context_window" s) (int (pos 100_000));
    weight = weight;
  })
target_of _ = err type_error

unfoldable pub targets_of : List Json → Result (List ResolvedTarget)
unfolding target_of
targets_of [] = ok []
targets_of (s ∷ specs) = do t ← target_of s; ts ← targets_of specs; ok (t ∷ ts)
