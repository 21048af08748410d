-- ===== src/Chat/Identity.antt =====
-- gateway/routes/chat.py: the first stages of the handler: the body, the principal, the required headers
-- and the routing. Each one goes on or returns the response of its refusal.
use agnos_proxy_oss.Base.{
  ℕ, String, false, Option, none, some, List, [], ◌∷◌, if◌then◌else◌, is_empty, string_eq, ⊤,
  nat_eq, list_eq,
}
use agnos_proxy_oss.Base.Dict.{Dict}
use agnos_proxy_oss.Base.Text.{Text, text}
use agnos_proxy_oss.Auth
use agnos_proxy_oss.Auth.{WorkspaceContext}
use agnos_proxy_oss.Auth.Principal.{or_text, resolve_principal}
use agnos_proxy_oss.Headers.{required_headers_for, missing_required_headers}
use agnos_proxy_oss.Registry.{ResolvedTarget}
use agnos_proxy_oss.Registry
use agnos_proxy_oss.Registry.Resolve.{resolve_chat_targets}
use agnos_proxy_oss.Chunker.{count_message_tokens}
use agnos_proxy_oss.Engines.{default_engine}
use agnos_proxy_oss.Chat.{
  Body, Parsed, malformed, not_an_object, parsed, Request, header, Attribution, request_error,
  Externals, Process, Surroundings, Stage, go, stop, refused, escaped, Step, emit,
}
use agnos_proxy_oss.Chat.Parts.{messages_of, Routed, http_status}

module _ (X : Externals) where
  open X use {lib, settings, columns, server}

  -- `await request.json()` and the test of its type.
  abbrev pub read_body : Parsed → Step (Process X) Body
  read_body malformed g = (stop (refused 400 "malformed_json" []), g)
  read_body not_an_object g = (stop (refused 400 "invalid_body" []), g)
  read_body (parsed b) g = (go b, g)

  abbrev pub principal :
      Option (Auth.Result ℕ × Auth.Store) → Process X → Stage WorkspaceContext × Process X
  principal none g = (stop escaped, g)
  principal (some (Auth.ok a, st)) g = (go (st.heap a), record g { auth = st })
  principal (some (Auth.err (Auth.unauthorized why), st)) g =
      (stop (refused 401 why []), record g { auth = st })
  principal (some (Auth.err Auth.unavailable, st)) g =
      (stop (refused 503 "unavailable" []), record g { auth = st })

  abbrev pub text_header : Option String → Option Text
  text_header none = none
  text_header (some s) = some (text s)

  -- 1. Auth.
  unfoldable pub authenticate : Request → Surroundings → Step (Process X) WorkspaceContext
  unfolding header resolve_principal
  authenticate req s g =
      principal
        (resolve_principal lib.auth (text_header (header "authorization" req))
          (header "x-gateway-component" req) s.auth_now s.auth_tables g.auth)
        g

  abbrev pub text_headers : Dict String String → List (Text × Text)
  text_headers [] = []
  text_headers ((k, v) ∷ hs) = (text k, text v) ∷ text_headers hs

  abbrev pub required_present : Dict String String → Option (List Text) → Stage ⊤
  required_present hs none = stop escaped
  required_present hs (some required) =
      if is_empty (missing_required_headers (text_headers hs) required)
      then go tt
      else stop (refused 400 "missing_required_header" [])

  -- 2. Required headers.
  unfoldable pub require_headers : Request → Surroundings → WorkspaceContext → Step (Process X) ⊤
  unfolding required_headers_for missing_required_headers
  require_headers req s ws g =
      let (required, c) =
        required_headers_for (columns ws).client_id s.headers_now s.required_row g.required in
      (required_present req.headers required, record g { required = c })

  -- `_attribution`, with the JWT's subject before the body and the headers.
  unfoldable pub attribution : Request → Body → WorkspaceContext → String → Attribution
  unfolding header
  attribution req b ws alias = record {
    client_id = (columns ws).client_id;
    workspace_id = ws.workspace_id;
    user_id =
        or_text ws.user_id
          (or_text (or_text b.user (header "x-gateway-user" req)) (header "x-gateway-user-id" req));
    use_case = or_text b.use_case (header "x-gateway-use-case" req);
    component = ws.component;
    alias = alias;
  }

  abbrev pub tokens_of : Body → ℕ
  tokens_of b = count_message_tokens lib.encode (messages_of b)

  abbrev pub string_of : Option String → String
  string_of none = ""
  string_of (some s) = s

  -- The `except HTTPException` of the routing.
  abbrev pub routing_failed :
      Request → Body → WorkspaceContext → Option ℕ → Process X → Stage Routed × Process X
  routing_failed req b ws none g = (stop escaped, g)
  routing_failed req b ws (some status) g =
      let (e, slot) = default_engine settings.engine g.engine in
      let who = attribution req b ws (string_of b.model) in
      (
        stop (refused status "routing_failed" []),
        emit (request_error who "-" e "routing_failed" status (tokens_of b))
            (record g { engine = slot }),
      )

  abbrev pub routed :
      Request
      → Body
      → WorkspaceContext
      → Registry.Result (String × List ResolvedTarget)
      → Process X
      → Stage Routed × Process X
  routed req b ws (Registry.err e) g = routing_failed req b ws (http_status e) g
  routed req b ws (Registry.ok (alias, [])) g = (stop escaped, g)
  routed req b ws (Registry.ok (alias, t ∷ ts)) g = (
    go (record {
      body = b;
      context = ws;
      who = attribution req b ws alias;
      target = t;
      targets = t ∷ ts;
      est_tokens = tokens_of b;
      redacted = false;
      info = none;
    }),
    g,
  )

  -- 3. Routing.
  unfoldable pub route : Request → Body → WorkspaceContext → Step (Process X) Routed
  unfolding attribution resolve_chat_targets count_message_tokens default_engine
  route req b ws g =
      routed req b ws (resolve_chat_targets lib.choose (columns ws).routing b.model) g
