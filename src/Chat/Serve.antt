-- ===== src/Chat/Serve.antt =====
-- gateway/routes/chat.py: the part of the handler after the start event, for a request that is not streamed:
-- the response cache, the engine with its fallbacks, the guardrails on the answer, and what a
-- success records. A token count that is no whole number counts as missing, and so does an answer
-- whose content is not a text.
use agnos_proxy_oss.Base.{
  ℕ, String, ◌<>◌, Bool, true, false, Option, none, some, List, [], ◌∷◌, ◌++◌, if◌then◌else◌,
  string_eq, ⊤, truthy, ◌==◌, list_eq, nat_eq,
}
use agnos_proxy_oss.Base.Text.{Text, text, lower}
use agnos_proxy_oss.Base.Json.{
  ℤ, pos, negsuc, Json, null, int, str, arr, obj, Fields, cons, get_or_null, get, parse_int,
}
use agnos_proxy_oss.Auth.Principal.{or_text}
use agnos_proxy_oss.Registry.{ResolvedTarget}
use agnos_proxy_oss.Fallback.{World, FallbackResult, is_ok}
use agnos_proxy_oss.Fallback.Execute.{execute}
use agnos_proxy_oss.Errors.{ErrorType, map_bifrost_error}
use agnos_proxy_oss.Errors
use agnos_proxy_oss.Pricing.{compute_cost}
use agnos_proxy_oss.Budgets.{add_live_spend}
use agnos_proxy_oss.Guardrails
use agnos_proxy_oss.Guardrails.Evaluate.{evaluate_output}
use agnos_proxy_oss.ResponseCache
use agnos_proxy_oss.Chunker.{Info}
use agnos_proxy_oss.Engines.{Engine}
use agnos_proxy_oss.Chat.{
  Body, Request, header, Event, request_error, request_success, fallback, cache_hit, Header,
  cache_header, guardrail_header, truncated_header, Externals, Process, Surroundings, Stage, go,
  stop, Response, refused, escaped, served, replayed, Step, emit, ◌>>=◌, Attribution,
}
use agnos_proxy_oss.Chat.Parts.{Routed, decisions}

-- `EngineResult.usage` of gateway/engines/base.py, and the same fields of a cached answer.
abbrev pub count_of : Json → ℕ
count_of (int (pos n)) = n
count_of _ = 0

abbrev pub count_at : String → Json → ℕ
count_at k (obj u) = count_of (get_or_null k u)
count_at k _ = 0

unfoldable pub usage : Fields → ℕ × ℕ
unfolding get
usage body =
    let u = get_or_null "usage" body in (count_at "prompt_tokens" u, count_at "completion_tokens" u)

-- `_out_text`
abbrev pub content_in : Json → String
content_in (obj m) = elim (get_or_null "content" m) [ str t ↦ t | _ ↦ "" ]
content_in _ = ""

abbrev pub message_in : Json → String
message_in (obj choice) = content_in (get_or_null "message" choice)
message_in _ = ""

unfoldable pub out_text : Fields → String
unfolding get
out_text body = elim (get_or_null "choices" body) [
  | arr (cons choice rest) ↦ message_in choice
  | _ ↦ ""
]

abbrev pub type_name : ErrorType → String
type_name Errors.provider_auth_error = "provider_auth_error"
type_name Errors.rate_limit_exceeded = "rate_limit_exceeded"
type_name Errors.context_length_exceeded = "context_length_exceeded"
type_name Errors.invalid_request_error = "invalid_request_error"
type_name Errors.timeout = "timeout"
type_name Errors.upstream_error = "upstream_error"

abbrev pub fallback_events : Attribution → List (String × String × String) → List Event
fallback_events who [] = []
fallback_events who ((frm, to, reason) ∷ es) = fallback who frm to reason ∷ fallback_events who es

abbrev pub json_usage : Json → ℕ × ℕ
json_usage (obj d) = usage d
json_usage _ = (0, 0)

-- `int(cache_ttl_hdr) if cache_ttl_hdr else 300`; a negative time is over at once.
abbrev pub seconds_in : Option ℤ → ℕ
seconds_in none = 300
seconds_in (some (pos n)) = n
seconds_in (some (negsuc n)) = 0

unfoldable pub ttl_of : Option String → ℕ
unfolding parse_int
ttl_of none = 300
ttl_of (some s) = if s == "" then 300 else seconds_in (parse_int s)

module _ (X : Externals) where
  open X use {lib, settings, columns, upstream, redis}

  -- `ckey`
  unfoldable pub cache_key : Request → Routed → Option String
  unfolding header
  cache_key req r =
      let idem = header "idempotency-key" req in
      if truthy idem
      then some ("idem:" <> r.who.workspace_id <> ":" <> elim idem [ none ↦ "" | some k ↦ k ])
      else if truthy (header "x-gateway-cache-ttl" req)
      then some (lib.digest r.who.workspace_id r.who.alias r.body)
      else none

  abbrev pub hit : Surroundings → Routed → Json → Process X → Stage ⊤ × Process X
  hit s r null g = (go tt, g)
  hit s r cached g =
      let (i, o) = json_usage cached in
      (
        stop (replayed cached),
        emit
            (cache_hit r.who r.target.provider i o
              (compute_cost s.prices (text r.target.model_id) i o))
            g,
      )

  abbrev pub looked_up : Surroundings → Routed → Option String → Process X → Stage ⊤ × Process X
  looked_up s r none g = (go tt, g)
  looked_up s r (some stored) g = hit s r (lib.loads stored) g

  abbrev pub replay_key : Surroundings → Routed → Option String → Process X → Stage ⊤ × Process X
  replay_key s r none g = (go tt, g)
  replay_key s r (some key) g =
      let (value, c) =
        ResponseCache.get redis settings.cache_in_redis key s.cache_now g.mem g.redis in
      looked_up s r value (record g { redis = c })

  -- 8. The response cache and the idempotency key.
  unfoldable pub replay : Request → Surroundings → Routed → Step (Process X) ⊤
  unfolding cache_key ResponseCache.get compute_cost usage
  replay req s r g = replay_key s r (cache_key req r) g

  -- The providers as the fallback executor calls them for one body.
  abbrev pub world : Engine → Body → World
  world e b = record {
    State = upstream.State;
    now = upstream.now;
    credential = upstream.credential;
    chat = upstream.chat e b;
    pause = upstream.pause;
    digits = upstream.digits;
  }

  abbrev pub provider_failed :
      Routed
      → Engine
      → ResolvedTarget
      → ℕ × ErrorType
      → Process X
      → Stage FallbackResult × Process X
  provider_failed r e t (code, type_) g = (
    stop (refused code (type_name type_) []),
    emit (request_error r.who t.provider e (type_name type_) code r.est_tokens) g,
  )

  -- The answer of `map_bifrost_error`; its exception leaves the handler before the fallbacks are told.
  abbrev pub mapped :
      Routed
      → Engine
      → FallbackResult
      → Option (ℕ × ErrorType)
      → Process X
      → Stage FallbackResult × Process X
  mapped r e fb none g = (stop escaped, g)
  mapped r e fb (some answer) g =
      provider_failed r e fb.target answer
        (record g { events = g.events ++ fallback_events r.who fb.fallbacks_emitted })

  unfoldable pub reported :
      Routed → Engine → Option FallbackResult → Process X → Stage FallbackResult × Process X
  unfolding is_ok map_bifrost_error
  reported r e none g = provider_failed r e r.target (502, Errors.upstream_error) g
  reported r e (some fb) g =
      let g' : Process X = record g {
        events = g.events ++ fallback_events r.who fb.fallbacks_emitted;
      } in
      if is_ok fb.result
      then (go fb, g')
      else mapped r e fb (map_bifrost_error fb.result.status_code fb.result.body) g

  -- 9. and 10. The engine, with its fallbacks.
  unfoldable pub invoke : Routed → Engine → Option ℕ → Step (Process X) FallbackResult
  unfolding execute reported
  invoke r e timeout g =
      let (fb, breaker, w) =
        execute (world e r.body) settings.registry r.who.workspace_id settings.max_retries timeout
          r.targets g.breaker g.upstream in
      reported r e fb (record g { breaker = breaker; upstream = w })

  -- `eff_mode`
  unfoldable pub effective_mode : Request → Routed → Text
  unfolding header lower
  effective_mode req r = lower (
      text
        (elim (or_text (header "x-gateway-guardrail-mode" req)
          (columns r.context).guardrails.mode) [
            | none ↦ "audit"
            | some m ↦ if m == "" then "audit" else m
          ]))

  unfoldable pub flagged :
      Request
      → Routed
      → Engine
      → FallbackResult
      → List Guardrails.Finding
      → Process X
      → Stage Bool × Process X
  unfolding effective_mode usage
  flagged req r e fb [] g = (go false, g)
  flagged req r e fb (f ∷ fs) g =
      let g' : Process X = record g {
        events = g.events ++ decisions r.who "output-scan" "output" "output" (f ∷ fs);
      } in
      if effective_mode req r == text "block"
      then (
        stop (refused 422 "guardrail_violation" (guardrail_header "output-blocked" ∷ [])),
        emit
            (request_error r.who fb.target.provider e "guardrail_violation" 422
              (usage fb.result.body).0)
            g',
      )
      else (go true, g')

  -- The guardrails on the answer.
  unfoldable pub screen_output :
      Request → Surroundings → Routed → Engine → FallbackResult → Step (Process X) Bool
  unfolding flagged evaluate_output out_text
  screen_output req s r e fb g =
      let (found, c) =
        evaluate_output lib.guardrails (columns r.context).guardrails (out_text fb.result.body)
          r.who.workspace_id r.who.component s.output_now s.guardrail_tables g.rules in
      if out_text fb.result.body == ""
      then (go false, g)
      else flagged req r e fb found (record g { rules = c })

  -- `_cache.put`
  abbrev pub stored : Request → Surroundings → Fields → Option String → Process X → Process X
  stored req s body none g = g
  stored req s body (some key) g =
      let (mem, c) =
        ResponseCache.put redis settings.cache_in_redis key (lib.dumps body)
          (ttl_of (header "x-gateway-cache-ttl" req)) s.put_now g.mem g.redis in
      record g { mem = mem; redis = c }

  abbrev pub truncated_headers : Option Info → List Header
  truncated_headers none = []
  truncated_headers (some i) =
      if i.truncated
      then truncated_header i.dropped_messages i.original_tokens i.sent_tokens ∷ []
      else []

  abbrev pub cache_headers : Option String → List Header
  cache_headers none = []
  cache_headers (some key) = cache_header "MISS" ∷ []

  abbrev pub answer_headers : Request → Routed → Bool → List Header
  answer_headers req r out_flagged =
      cache_headers (cache_key req r)
      ++ (if r.redacted
          then guardrail_header "redacted" ∷ []
          else if out_flagged
          then guardrail_header "output-flagged" ∷ []
          else [])
      ++ truncated_headers r.info

  -- 11. and 12. The cost, the success event, the live spend and the cache.
  unfoldable pub settle :
      Request → Surroundings → Routed → Engine → FallbackResult → Bool → Step (Process X) Response
  unfolding usage compute_cost add_live_spend cache_key ResponseCache.put ttl_of header
  settle req s r e fb out_flagged g =
      let (i, o) = usage fb.result.body in
      let cost = compute_cost s.prices (text fb.target.model_id) i o in
      let g' = emit (request_success r.who fb.target e i o cost false) g in
      let (ledger, alerted) = g.ledger in
      let ledger' =
        add_live_spend r.who.client_id r.who.workspace_id r.who.user_id cost
          (some fb.target.model_id) s.spend_now ledger in
      (
        go (served fb.result.body (answer_headers req r out_flagged)),
        stored req s fb.result.body (cache_key req r) (record g' { ledger = (ledger', alerted) }),
      )

  -- A request that is not streamed, after its start event.
  unfoldable pub serve :
      Request → Surroundings → Routed → Engine → Option ℕ → Step (Process X) Response
  unfolding replay invoke screen_output settle
  serve req s r e timeout = do
    _ ← replay req s r
    fb ← invoke r e timeout
    out_flagged ← screen_output req s r e fb
    settle req s r e fb out_flagged
