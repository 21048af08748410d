-- ===== src/Validation/Alias.antt =====
-- `validate_alias_map` of gateway/core/admin_validation.py.
use agnos_proxy_oss.Base.{
  ℕ, suc, String, Option, none, some, List, [], ◌∷◌, ◌++◌, not, if◌then◌else◌, string_eq, pair_eq,
  contains, is_empty,
}
use agnos_proxy_oss.Base.Json.{
  pos, negsuc, Json, null, int, float, str, arr, obj, Fields, end, field, get, get_or_null, or_else,
  items,
}
use agnos_proxy_oss.Registry.{with_default}
use agnos_proxy_oss.Validation.{
  Place, at, nth, not_an_object, no_target, required, unknown_value, unconfigured, not_a_number,
  negative, duplicate, Error, err, providers, is_filled,
}

-- The name of a provider that is a text.
unfoldable pub provider_name_errors : List Place → List String → String → List Error
unfolding is_filled
provider_name_errors loc configured p =
    if not (is_filled (str p))
    then err loc required
    else if not (contains providers p)
    then err loc unknown_value
    else if not (contains configured p)
    then err loc unconfigured
    else []

abbrev pub provider_errors : List Place → List String → Json → List Error
provider_errors loc configured (str p) = provider_name_errors loc configured p
provider_errors loc configured _ = err loc required

abbrev pub model_errors : List Place → Json → List Error
model_errors loc v = if is_filled v then [] else err loc required

abbrev pub weight_errors : List Place → Json → List Error
weight_errors loc (int (pos n)) = []
weight_errors loc (int (negsuc n)) = err loc negative
weight_errors loc (float (pos n)) = []
weight_errors loc (float (negsuc n)) = err loc negative
weight_errors loc _ = err loc not_a_number

-- `t.get("model_id") or t.get("model")`
abbrev pub model_of : Fields → Json
model_of t = or_else (get_or_null "model_id" t) (get_or_null "model" t)

-- The pair of a target whose provider and model are texts.
abbrev pub pair_of : Json → Json → Option (String × String)
pair_of (str p) (str m) = some (p, m)
pair_of _ _ = none

abbrev pub Seen : Type 0
Seen = List (String × String)

abbrev pub pair_errors : List Place → Option (String × String) → Seen → List Error
pair_errors loc none seen = []
pair_errors loc (some p) seen = if contains seen p then err loc duplicate else []

abbrev pub add_pair : Option (String × String) → Seen → Seen
add_pair none seen = seen
add_pair (some p) seen = if contains seen p then seen else p ∷ seen

-- The errors of one target.
unfoldable pub target_errors : List Place → List String → Fields → Seen → List Error
unfolding provider_name_errors is_filled get
target_errors loc configured t seen =
    provider_errors (loc ++ (at "provider" ∷ [])) configured (get_or_null "provider" t)
    ++ model_errors (loc ++ (at "model_id" ∷ [])) (model_of t)
    ++ weight_errors (loc ++ (at "weight" ∷ [])) (with_default (get "weight" t) (int (pos 1)))
    ++ pair_errors loc (pair_of (get_or_null "provider" t) (model_of t)) seen

-- The loop over the targets, from the i-th on.
unfoldable pub targets_errors : List Place → List String → ℕ → List Json → Seen → List Error
unfolding target_errors get
targets_errors loc configured i [] seen = []
targets_errors loc configured i (obj t ∷ ts) seen =
    target_errors (loc ++ (nth i ∷ [])) configured t seen
    ++ targets_errors loc configured (suc i) ts
        (add_pair (pair_of (get_or_null "provider" t) (model_of t)) seen)
targets_errors loc configured i (v ∷ ts) seen =
    err (loc ++ (nth i ∷ [])) not_an_object ++ targets_errors loc configured (suc i) ts seen

-- The targets of an alias: a single object is a list of one.
abbrev pub targets_in : Json → List Json
targets_in (obj t) = obj t ∷ []
targets_in (arr xs) = items xs
targets_in _ = []

unfoldable pub alias_errors : List Place → List String → String → Json → List Error
unfolding targets_errors is_filled
alias_errors loc configured alias v =
    if not (is_filled (str alias))
    then err loc required
    else if is_empty (targets_in v)
    then err loc no_target
    else targets_errors loc configured 0 (targets_in v) []

-- The loop over the aliases.
unfoldable pub aliases_errors : List Place → List String → Fields → List Error
unfolding alias_errors
aliases_errors base configured end = []
aliases_errors base configured (field alias v d) =
    alias_errors (base ++ (at alias ∷ [])) configured alias v ++ aliases_errors base configured d

-- `validate_alias_map`
unfoldable pub validate_alias_map : List Place → List String → Json → List Error
unfolding aliases_errors
validate_alias_map base configured null = []
validate_alias_map base configured (obj d) = aliases_errors base configured d
validate_alias_map base configured _ = err base not_an_object
