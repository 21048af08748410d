-- ===== src/Auth/Principal.antt =====
-- gateway/core/auth.py: the workspace JWT, the component of a request, and resolve_principal.
use agnos_proxy_oss.Base.{
  ℕ, String, Option, none, some, [], ◌∷◌, if◌then◌else◌, string_eq, nat_eq, list_eq, pair_eq,
  truthy, contains, is_empty,
}
use agnos_proxy_oss.Base.Text.{Text}
use agnos_proxy_oss.Auth.{
  Claims, Library, Result, Store, Tables, Workspace, allocate, ctx_from_workspace, err,
  extract_bearer, find_workspace, jwt, ok, resolve_workspace, unauthorized, write,
}

abbrev pub or_text : Option String → Option String → Option String
or_text a b = if truthy a then a else b

-- What `_resolve_jwt` does with the workspace that a claim names.
abbrev pub jwt_context : Claims → Option Workspace → Store → Result ℕ × Store
jwt_context claims none st = (err (unauthorized "Workspace not found."), st)
jwt_context claims (some ws) st =
    let roles = if is_empty claims.roles then claims.scope else claims.roles in
    let (a, st') =
      allocate
        (record (ctx_from_workspace ws roles none claims.sub jwt) {
          component = claims.component_claim;
        })
        st in
    (ok a, st')

-- The query of `_resolve_jwt`; a database that is down raises, which is `none`.
abbrev pub jwt_query : Claims → String → Option Tables → Store → Option (Result ℕ × Store)
jwt_query claims id none st = none
jwt_query claims id (some t) st = some (jwt_context claims (find_workspace id t.workspaces) st)

abbrev pub jwt_named : Claims → Option String → Option Tables → Store → Option (Result ℕ × Store)
jwt_named claims none db st = some (err (unauthorized "JWT missing workspace claim."), st)
jwt_named claims (some id) db st =
    if truthy (some id)
    then jwt_query claims id db st
    else some (err (unauthorized "JWT missing workspace claim."), st)

abbrev pub jwt_claims : Option Claims → Option Tables → Store → Option (Result ℕ × Store)
jwt_claims none db st = some (err (unauthorized "Invalid or unverifiable JWT."), st)
jwt_claims (some claims) db st =
    jwt_named claims (or_text claims.workspace_claim claims.workspace_id) db st

-- `_resolve_jwt`
unfoldable pub resolve_jwt : Library → Text → Option Tables → Store → Option (Result ℕ × Store)
unfolding find_workspace
resolve_jwt lib token db st = jwt_claims (lib.decode_bearer_jwt token) db st

-- `_overlay_component`: the context at an address takes the component, and a pair that has not been
-- seen is stored when the database answers.
unfoldable pub overlay_component : ℕ → Option String → Option Tables → Store → Store
overlay_component a component db st =
    let c = st.heap a in
    let st' : Store = record st { heap = write a (record c { component = component }) st.heap } in
    elim component [
      | none ↦ st
      | some name ↦
          if truthy (some name)
          then if contains st.seen_components (c.workspace_id, name) then st' else elim db [
            | none ↦ st'
            | some t ↦ record st' { seen_components = (c.workspace_id, name) ∷ st.seen_components }
          ]
          else st
    ]

-- The end of `resolve_principal`, once there is a context: the header goes before the context.
abbrev pub attribute : Option String → Option Tables → Result ℕ × Store → Result ℕ × Store
attribute header_component db (err e, st) = (err e, st)
attribute header_component db (ok a, st) =
    (ok a, overlay_component a (or_text header_component (st.heap a).component) db st)

abbrev pub attribute_any :
    Option String → Option Tables → Option (Result ℕ × Store) → Option (Result ℕ × Store)
attribute_any component db none = none
attribute_any component db (some r) = some (attribute component db r)

-- `resolve_principal`; `none` is the exception of `_resolve_jwt`.
unfoldable pub resolve_principal :
    Library → Option Text → Option String → ℕ → Option Tables → Store → Option (Result ℕ × Store)
unfolding extract_bearer resolve_jwt resolve_workspace overlay_component
resolve_principal lib header component now db st = elim (extract_bearer header) [
  | err e ↦ some (err e, st)
  | ok token ↦
      if lib.looks_like_jwt token
      then attribute_any component db (resolve_jwt lib token db st)
      else attribute_any component db (some (resolve_workspace lib header now db st))
]

-- `invalidate_cache`
unfoldable pub invalidate_cache : Store → Store
invalidate_cache st = record st { cache = []; seen_components = [] }
