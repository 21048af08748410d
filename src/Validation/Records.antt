-- ===== src/Validation/Records.antt =====
-- The bodies of prices, keys, guardrail profiles and rules in gateway/core/admin_validation.py. The rows of
-- the database, Python's `fromisoformat` and the CEL compiler are parameters; a compiler that is not
-- installed accepts every expression.
use agnos_proxy_oss.Base.{
  ℕ, zero, suc, String, Bool, true, false, Option, none, some, List, [], ◌∷◌, ◌++◌, ◌&&◌, ◌||◌, not,
  leb, ltb, eqb, if◌then◌else◌, string_eq, list_eq, nat_eq, ◌==◌, contains, is_empty, length,
}
use agnos_proxy_oss.Base.Text.{Text, text, strip}
use agnos_proxy_oss.Base.Json.{
  ℤ, pos, Json, null, bool, int, float, str, arr, obj, Fields, end, nil, get, get_or_null,
  is_truthy, items,
}
use agnos_proxy_oss.Validation.{
  Place, at, nth, required, unknown_value, not_a_number, not_an_object, not_integers, too_short,
  malformed, missing_row, out_of_range, past, no_effect, Error, err, is_one_of, stripped, is_filled,
  is_nonneg_number, guardrail_modes,
}
use agnos_proxy_oss.Validation.Tenants.{body_at, attr}
use agnos_proxy_oss.Validation.Provider.{part_at, fields_of}

abbrev pub rate_errors : List Place → Json → List Error
rate_errors loc v = if is_nonneg_number v then [] else err loc not_a_number

-- A number that is zero, as which `False` counts.
abbrev pub is_zero : Json → Bool
is_zero (int (pos zero)) = true
is_zero (float (pos zero)) = true
is_zero (bool b) = not b
is_zero _ = false

abbrev pub substr_errors : Text → List Error
substr_errors s =
    if is_empty s
    then err (body_at "model_substr") required
    else if ltb (length s) 3
    then err (body_at "model_substr") too_short
    else []

-- `validate_pricing_in`
unfoldable pub validate_pricing_in : Fields → List Error
unfolding get strip is_nonneg_number
validate_pricing_in body =
    let inp = attr "input_per_1k" null body in
    let out = attr "output_per_1k" null body in
    substr_errors (stripped (attr "model_substr" (str "") body))
    ++ rate_errors (body_at "input_per_1k") inp
    ++ rate_errors (body_at "output_per_1k") out
    ++ (if is_zero inp && is_zero out then err (at "body" ∷ []) no_effect else [])

-- The roles of a key, from the i-th on.
unfoldable pub roles_errors : ℕ → List Json → List Error
unfolding is_filled
roles_errors i [] = []
roles_errors i (r ∷ rs) =
    (if is_filled r then [] else err (at "body" ∷ at "roles" ∷ nth i ∷ []) required)
    ++ roles_errors (suc i) rs

abbrev pub list_of : Json → List Json
list_of (arr xs) = items xs
list_of _ = []

-- `raw.replace("Z", "+00:00")`
abbrev pub utc_offset : Text → Text
utc_offset [] = []
utc_offset (c ∷ s) = if eqb c b'Z' then text "+00:00" ++ utc_offset s else c ∷ utc_offset s

module _ (fromisoformat : Text → Option ℕ) where
  -- `_is_iso_date_or_datetime`, in seconds.
  unfoldable pub iso_date : Json → Option ℕ
  unfolding is_filled strip
  iso_date v =
      let raw = utc_offset (stripped v) in
      let dated = fromisoformat (raw ++ text "T00:00:00") in
      if is_filled v then elim (fromisoformat raw) [ some d ↦ some d | none ↦ dated ] else none

  abbrev pub expiry_errors : ℕ → Option ℕ → List Error
  expiry_errors now none = err (body_at "expires_at") malformed
  expiry_errors now (some d) = if leb d now then err (body_at "expires_at") past else []

  -- `validate_key_issue`
  unfoldable pub validate_key_issue : ℕ → Fields → List Error
  unfolding get roles_errors iso_date
  validate_key_issue now body =
      let roles = list_of (attr "roles" (arr nil) body) in
      let expires_at = attr "expires_at" null body in
      (if is_empty roles then err (body_at "roles") required else [])
      ++ roles_errors 0 roles
      ++ (if is_truthy expires_at then expiry_errors now (iso_date expires_at) else [])

-- `DETECTOR_TYPES`, `GUARDRAIL_SCOPES`, `GUARDRAIL_APPLY_TO` and `ENGINES`
abbrev pub detector_types : List String
detector_types =
    "regex" ∷ "secrets" ∷ "keyword" ∷ "presidio" ∷ "bedrock" ∷ "azure" ∷ "model-armor" ∷ []

abbrev pub guardrail_scopes : List String
guardrail_scopes = "global" ∷ "workspace" ∷ "component" ∷ []

abbrev pub guardrail_apply_to : List String
guardrail_apply_to = "input" ∷ "output" ∷ "both" ∷ []

abbrev pub engines : List String
engines = "bifrost" ∷ "litellm" ∷ "portkey" ∷ "direct" ∷ "echo" ∷ []

abbrev pub choice_errors : String → List String → Json → List Error
choice_errors k choices v = if is_one_of choices v then [] else err (body_at k) unknown_value

abbrev pub name_errors : Fields → List Error
name_errors body =
    if is_empty (stripped (attr "name" (str "") body)) then err (body_at "name") required else []

-- `validate_engine_name`
unfoldable pub validate_engine_name : String → List Error
validate_engine_name name =
    if contains engines name then [] else err (body_at "engine") unknown_value

abbrev pub is_scope : String → Json → Bool
is_scope scope (str s) = string_eq.beq s scope
is_scope scope _ = false

-- A pattern, or a map of patterns that is not empty.
abbrev pub is_filled_map : Json → Bool
is_filled_map (obj d) = is_truthy (obj d)
is_filled_map _ = false

-- What a detector's configuration must have.
unfoldable pub detector_errors : Json → Fields → List Error
unfolding get
detector_errors dt config =
    (if is_scope "regex" dt
        && is_truthy (obj config)
        && not (is_truthy (get_or_null "pattern" config))
        && not (is_filled_map (get_or_null "patterns" config))
      then err (body_at "config") required
      else [])
    ++ (if is_scope "keyword" dt
          && not (is_truthy (get_or_null "keywords" config))
          && not (is_truthy (get_or_null "blocklist" config))
        then err (body_at "config") required
        else [])
    ++ (if is_scope "bedrock" dt
          && not (is_truthy (get_or_null "guardrail_id" config))
          && not (is_truthy (get_or_null "guardrailIdentifier" config))
        then err (part_at "config" "guardrail_id") required
        else [])

abbrev pub config_errors : Json → List Error
config_errors (obj d) = []
config_errors v = if is_truthy v then err (body_at "config") not_an_object else []

module _ (workspace_exists : Json → Bool) (component_exists : Json → Json → Bool) where
  -- The workspace and the component that a scope names.
  unfoldable pub scope_errors : Fields → List Error
  unfolding get
  scope_errors body =
      let scope = attr "scope" (str "global") body in
      let wid = attr "workspace_id" null body in
      let comp = attr "component" null body in
      (if is_scope "workspace" scope
        then if not (is_truthy wid)
          then err (body_at "workspace_id") required
          else if workspace_exists wid
          then []
          else err (body_at "workspace_id") missing_row
        else [])
      ++ (if is_scope "component" scope
          then if not (is_truthy wid) || not (is_truthy comp)
            then err (at "body" ∷ []) required
            else if component_exists wid comp
            then []
            else err (body_at "component") missing_row
          else [])

  -- `validate_profile_in`
  unfoldable pub validate_profile_in : Fields → List Error
  unfolding get strip scope_errors detector_errors
  validate_profile_in body =
      let dt = attr "detector_type" (str "") body in
      name_errors body
      ++ choice_errors "detector_type" detector_types dt
      ++ choice_errors "scope" guardrail_scopes (attr "scope" (str "global") body)
      ++ scope_errors body
      ++ config_errors (attr "config" (obj end) body)
      ++ detector_errors dt (fields_of (attr "config" (obj end) body))

  -- `isinstance(sr, (int, float)) and 0 <= sr <= 1`
  abbrev pub is_rate : Json → Bool
  is_rate (int (pos n)) = leb n 1
  is_rate (float (pos n)) = leb n 1_000_000
  is_rate (bool b) = true
  is_rate _ = false

  abbrev pub is_milliseconds : Json → Bool
  is_milliseconds (int (pos n)) = leb 1 n && leb n 60_000
  is_milliseconds (bool b) = b
  is_milliseconds _ = false

  module _ (cel_compiles : Text → Bool) (profile_exists : ℤ → Bool) where
    abbrev pub cel_errors : Text → List Error
    cel_errors expr =
        if is_empty expr || (expr == text "true") || cel_compiles expr
        then []
        else err (body_at "cel_expression") malformed

    abbrev pub id_errors : List Place → Json → List Error
    id_errors loc (int n) = if profile_exists n then [] else err loc missing_row
    id_errors loc (bool b) =
        if profile_exists (pos (if b then 1 else 0)) then [] else err loc missing_row
    id_errors loc _ = err loc not_integers

    unfoldable pub ids_errors : ℕ → List Json → List Error
    ids_errors i [] = []
    ids_errors i (v ∷ vs) =
        id_errors (at "body" ∷ at "profile_ids" ∷ nth i ∷ []) v ++ ids_errors (suc i) vs

    abbrev pub profile_ids_errors : Json → List Error
    profile_ids_errors (arr xs) = ids_errors 0 (items xs)
    profile_ids_errors v = if is_truthy v then err (body_at "profile_ids") not_integers else []

    -- `validate_rule_in`
    unfoldable pub validate_rule_in : Fields → List Error
    unfolding get strip scope_errors ids_errors
    validate_rule_in body =
        name_errors body
        ++ choice_errors "apply_to" guardrail_apply_to (attr "apply_to" (str "input") body)
        ++ choice_errors "action" guardrail_modes (attr "action" (str "block") body)
        ++ choice_errors "scope" guardrail_scopes (attr "scope" (str "global") body)
        ++ (if is_rate (attr "sampling_rate" (float (pos 1_000_000)) body)
            then []
            else err (body_at "sampling_rate") out_of_range)
        ++ (if is_milliseconds (attr "timeout_ms" (int (pos 1000)) body)
            then []
            else err (body_at "timeout_ms") out_of_range)
        ++ cel_errors (stripped (attr "cel_expression" (str "") body))
        ++ profile_ids_errors (attr "profile_ids" (arr nil) body)
        ++ scope_errors body
