-- ===== src/Registry/Resolve.antt =====
-- gateway/core/registry.py: the alias tables, the weighted primary, and resolve_chat_targets.
use Prim.Native.Char.{code}
use agnos_proxy_oss.Base.{
  ℕ, zero, suc, String, Bool, false, Option, none, some, List, [], ◌∷◌, ◌&&◌, ◌||◌, not, eqb, ltb,
  if◌then◌else◌, map, any, string_eq, length, is_empty,
}
use agnos_proxy_oss.Base.Text.{text, strip}
use agnos_proxy_oss.Base.Json.{ℤ, pos, negsuc, Json, int, arr, obj, cons, get, is_truthy}
use agnos_proxy_oss.Registry.{
  default_alias_missing, no_chat_models, model_not_registered, type_error, value_error,
  ResolvedTarget, Result, Workspace, alias_targets, err, new_target, ok, targets_of, text_at,
  with_default, ◌>>=◌,
}

-- `targets.insert(0, targets.pop(i))`
unfoldable pub pop_at {ℓ} : {A : Type ℓ} → ℕ → List A → Option (A × List A)
pop_at i [] = none
pop_at zero (x ∷ xs) = some (x, xs)
pop_at (suc i) (x ∷ xs) = elim (pop_at i xs) [ none ↦ none | some (y, ys) ↦ some (y, x ∷ ys) ]

unfoldable pub to_front {ℓ} : {A : Type ℓ} → ℕ → List A → List A
unfolding pop_at
to_front i xs = elim (pop_at i xs) [ none ↦ xs | some (y, ys) ↦ y ∷ ys ]

abbrev pub is_one : ℤ → Bool
is_one (pos n) = eqb n 1_000_000
is_one (negsuc n) = false

-- `c in s`, and the parts of `s.partition(c)` before and after the first `c`.
unfoldable pub has_char : ℕ → String → Bool
has_char c String.[] = false
has_char c (String.◌∷◌ d s) = eqb (code d) c || has_char c s

unfoldable pub partition : ℕ → String → String × String
partition c String.[] = (String.[], String.[])
partition c (String.◌∷◌ d s) =
    let (before, after) = partition c s in
    if eqb (code d) c then (String.[], s) else (String.◌∷◌ d before, after)

abbrev pub is_prefixed : String → Bool
is_prefixed model = has_char b':' model && not (has_char b'/' model)

abbrev pub is_default : String → Bool
is_default model =
    string_eq.beq model "default-chat"
    || string_eq.beq model "default"
    || is_empty (strip (text model))

abbrev pub in_workspace : String → ResolvedTarget → ResolvedTarget
in_workspace ws t = record t { workspace_id = some ws }

abbrev pub Choose : Type 0
Choose = List ℤ → Option ℕ

-- The weighted primary goes to the front; the rest keeps its order.
unfoldable pub weighted : Choose → List ResolvedTarget → Result (List ResolvedTarget)
unfolding to_front
weighted choose ts =
    let weights = map (λ t. t.weight) ts in
    if ltb 1 (length ts) && (any (λ w. not (is_one w)) weights)
    then elim (choose weights) [ none ↦ err value_error | some i ↦ ok (to_front i ts) ]
    else ok ts

-- Mode A, from the specs of the alias on.
unfoldable pub resolve_specs :
    Choose → Workspace → String → List Json → Result (String × List ResolvedTarget)
resolve_specs choose ws model [] = err model_not_registered
resolve_specs choose ws model (s ∷ specs) = do
  targets ← targets_of (s ∷ specs)
  ordered ← weighted choose targets
  ok (model, map (in_workspace ws.workspace_id) ordered)

-- Mode A: the alias table.
unfoldable pub resolve_alias : Choose → Workspace → String → Result (String × List ResolvedTarget)
unfolding alias_targets targets_of weighted resolve_specs
resolve_alias choose ws model = resolve_specs choose ws model (alias_targets ws.chat_models model)

abbrev pub chosen_default : Workspace → Result String
chosen_default ws = elim ws.default_chat_alias [
  | none ↦ if is_truthy (obj ws.chat_models) then err default_alias_missing else err no_chat_models
  | some a ↦
      if string_eq.beq a ""
      then (if is_truthy (obj ws.chat_models)
          then err default_alias_missing
          else err no_chat_models)
      else ok a
]

abbrev pub requested : Option String → String
requested none = "default-chat"
requested (some m) = if string_eq.beq m "" then "default-chat" else m

-- `resolve_chat_targets`, with `body.get("model")`.
unfoldable pub resolve_chat_targets :
    Choose → Workspace → Option String → Result (String × List ResolvedTarget)
unfolding resolve_alias has_char partition
resolve_chat_targets choose ws asked =
    let model = requested asked in
    let (provider, model_id) = partition b':' model in
    if is_prefixed model
    then ok (model, in_workspace ws.workspace_id (new_target provider model_id) ∷ [])
    else if is_default model
    then chosen_default ws >>= resolve_alias choose ws
    else resolve_alias choose ws model

unfoldable pub embedding_of : Workspace → Json → Result ResolvedTarget
unfolding text_at
embedding_of ws (obj s) = do
  provider ← text_at "provider" s
  model_id ← text_at "model_id" s
  ok (record (in_workspace ws.workspace_id (new_target provider model_id)) {
    context_window = with_default (get "context_window" s) (int (pos 8192));
  })
embedding_of ws _ = err type_error

-- `resolve_embedding_target`
unfoldable pub resolve_embedding_target : Workspace → String → Result ResolvedTarget
unfolding get embedding_of has_char partition
resolve_embedding_target ws alias =
    let (provider, model_id) = partition b':' alias in
    let named = not (string_eq.beq provider "") && not (string_eq.beq model_id "") in
    let looked_up : Result ResolvedTarget = elim (get alias ws.embedding_models) [
      | none ↦ err model_not_registered
      | some spec ↦
          if is_truthy spec
          then elim spec [ arr (cons s0 xs) ↦ embedding_of ws s0 | other ↦ embedding_of ws other ]
          else err model_not_registered
    ] in
    if is_prefixed alias && named
    then ok (in_workspace ws.workspace_id (new_target provider model_id))
    else looked_up
