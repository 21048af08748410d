-- ===== src/Chat/Handler.antt =====
-- gateway/routes/chat.py: the handler, composed of its stages.
use agnos_proxy_oss.Base.{if◌then◌else◌, string_eq}
use agnos_proxy_oss.Engines.{Engine, select_engine}
use agnos_proxy_oss.Chat.{
  Request, header, request_start, Externals, Process, Surroundings, Stage, go, Response, Step, emit,
  ◌>>=◌, response,
}
use agnos_proxy_oss.Chat.Parts.{Routed, request_timeout}
use agnos_proxy_oss.Chat.Gates.{admit}
use agnos_proxy_oss.Chat.Serve.{serve}
use agnos_proxy_oss.Chat.Stream.{stream}

module _ (X : Externals) where
  open X use {lib, settings}

  abbrev pub going : Response × Process X → Stage Response × Process X
  going (r, g) = (go r, g)

  -- The rest of the handler with the chosen engine: the start event, and the stream or the answer.
  unfoldable pub started : Request → Surroundings → Routed → Engine → Step (Process X) Response
  unfolding serve stream header
  started req s r e g =
      let g' = emit (request_start r.who r.target e r.body.stream r.body.tools) g in
      let timeout =
        request_timeout lib.float_seconds settings.max_request_timeout_s
          (header "x-gateway-timeout" req) in
      if r.body.stream then going (stream X s r e g') else serve X req s r e timeout g'

  -- The handler from the choice of the engine on.
  unfoldable pub dispatch : Request → Surroundings → Routed → Step (Process X) Response
  unfolding started select_engine
  dispatch req s r g =
      let (e, slot) =
        select_engine lib.float_of settings.engine lib.random settings.engine_overrides
          r.target.provider g.engine in
      started req s r e (record g { engine = slot })

  -- `chat_completions`
  unfoldable pub chat_completions : Request → Surroundings → Process X → Response × Process X
  unfolding admit dispatch
  chat_completions req s g = response ((admit X req s >>= dispatch req s) g)
