-- ===== src/Validation/Blobs.antt =====
-- The blobs of gateway/core/admin_validation.py: guardrail flags, quotas, budgets and rate limits.
use agnos_proxy_oss.Base.{
  Bool, true, false, Option, none, some, List, [], ◌∷◌, ◌++◌, if◌then◌else◌, string_eq, all,
}
use agnos_proxy_oss.Base.Json.{
  Json, null, bool, int, arr, obj, Fields, end, field, get, is_truthy, items,
}
use agnos_proxy_oss.Validation.{
  Place, at, not_an_object, not_a_number, not_a_boolean, not_integers, not_positive, unknown_value,
  Error, err, guardrail_modes, is_one_of, is_pos_int, is_nonneg_number,
}

-- The errors of a key that is present.
abbrev pub present : Option Json → (Json → List Error) → List Error
present none check = []
present (some v) check = check v

abbrev pub mode_errors : List Place → Json → List Error
mode_errors loc v = if is_one_of guardrail_modes v then [] else err loc unknown_value

abbrev pub boolean_errors : List Place → Json → List Error
boolean_errors loc (bool b) = []
boolean_errors loc _ = err loc not_a_boolean

-- `isinstance(x, int)`, which a Boolean passes.
abbrev pub is_integer : Json → Bool
is_integer (int n) = true
is_integer (bool b) = true
is_integer _ = false

abbrev pub ids_errors : List Place → Json → List Error
ids_errors loc (arr xs) = if all is_integer (items xs) then [] else err loc not_integers
ids_errors loc _ = err loc not_integers

unfoldable pub flags_errors : List Place → Fields → List Error
unfolding get
flags_errors base d =
    present (get "mode" d) (mode_errors (base ++ (at "mode" ∷ [])))
    ++ present (get "pii_detection" d) (boolean_errors (base ++ (at "pii_detection" ∷ [])))
    ++ present (get "secrets_detection" d) (boolean_errors (base ++ (at "secrets_detection" ∷ [])))
    ++ present (get "auto_truncate" d) (boolean_errors (base ++ (at "auto_truncate" ∷ [])))
    ++ present (get "rule_ids" d) (ids_errors (base ++ (at "rule_ids" ∷ [])))

-- `validate_guardrails_blob`
unfoldable pub validate_guardrails_blob : List Place → Json → List Error
unfolding flags_errors
validate_guardrails_blob base null = []
validate_guardrails_blob base (obj d) = flags_errors base d
validate_guardrails_blob base _ = err base not_an_object

-- `not blob`, else an object.
abbrev pub object_or_falsy : List Place → (Fields → List Error) → Json → List Error
object_or_falsy base check (obj d) = check d
object_or_falsy base check v = if is_truthy v then err base not_an_object else []

abbrev pub positive_errors : List Place → Json → List Error
positive_errors loc v = if is_pos_int v then [] else err loc not_positive

abbrev pub amount_errors : List Place → Json → List Error
amount_errors loc v = if is_nonneg_number v then [] else err loc not_a_number

-- `blob[k] is not None and ...`
abbrev pub unless_null : (Json → List Error) → Json → List Error
unless_null check null = []
unless_null check v = check v

abbrev pub quota_errors : List Place → Json → List Error
quota_errors loc (obj lims) =
    present (get "rpm" lims) (positive_errors (loc ++ (at "rpm" ∷ [])))
    ++ present (get "tpm" lims) (positive_errors (loc ++ (at "tpm" ∷ [])))
quota_errors loc _ = err loc not_an_object

unfoldable pub quotas_errors : List Place → Fields → List Error
unfolding get is_pos_int
quotas_errors base end = []
quotas_errors base (field alias lims d) =
    quota_errors (base ++ (at alias ∷ [])) lims ++ quotas_errors base d

-- `validate_quotas`
unfoldable pub validate_quotas : List Place → Json → List Error
unfolding quotas_errors
validate_quotas base v = object_or_falsy base (quotas_errors base) v

-- `validate_budgets`
unfoldable pub validate_budgets : List Place → Json → List Error
unfolding get is_nonneg_number
validate_budgets base v =
    object_or_falsy base
      (λ d.
        present (get "workspace_usd" d) (amount_errors (base ++ (at "workspace_usd" ∷ [])))
        ++ present (get "user_usd" d) (amount_errors (base ++ (at "user_usd" ∷ []))))
      v

-- `validate_client_budgets`
unfoldable pub validate_client_budgets : List Place → Json → List Error
unfolding get is_nonneg_number
validate_client_budgets base v =
    object_or_falsy base
      (λ d.
        present (get "client_usd" d) (unless_null (amount_errors (base ++ (at "client_usd" ∷ []))))
        ++ present (get "user_usd" d) (unless_null (amount_errors (base ++ (at "user_usd" ∷ [])))))
      v

-- `validate_rate_limits`
unfoldable pub validate_rate_limits : List Place → Json → List Error
unfolding get is_pos_int
validate_rate_limits base v =
    object_or_falsy base
      (λ d.
        present (get "rpm" d) (unless_null (positive_errors (base ++ (at "rpm" ∷ []))))
        ++ present (get "tpm" d) (unless_null (positive_errors (base ++ (at "tpm" ∷ [])))))
      v
