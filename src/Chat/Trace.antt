-- ===== src/Chat/Trace.antt =====
-- The handler as a whole keeps to the protocol of the events.
use agnos_proxy_oss.Base.{refl, List, Bool, true, false, if◌then◌else◌}
use agnos_proxy_oss.Engines.{Engine, select_engine}
use agnos_proxy_oss.Chat.{
  Request, Event, request_start, header, Externals, Process, Surroundings, Stage, Response, emit,
}
use agnos_proxy_oss.Chat.Parts.{Routed, request_timeout}
use agnos_proxy_oss.Chat.Gates.{admit}
use agnos_proxy_oss.Chat.Serve.{serve}
use agnos_proxy_oss.Chat.Stream.{stream}
use agnos_proxy_oss.Chat.Handler.{going, started, dispatch, chat_completions}
use agnos_proxy_oss.Chat.Protocol.{
  Phase, waiting, running, Ended, Ends, Wrote-one, Ends-after, Ends-Ended, and_then-Ends,
}
use agnos_proxy_oss.Chat.Waiting.{admit-Keeps}
use agnos_proxy_oss.Chat.Running.{serve-Ends, stream-Ended}

module _ (X : Externals) where
  going-Ends :
      (p : Phase) (es : List Event) (answer : Response × Process X)
      → Ended p es answer.0 answer.1.events
      → Ends X p es (going X answer)
  going-Ends p es (r, g) ended = ended

  if-Ends :
      (b : Bool) (p : Phase) (es : List Event) (m n : Stage Response × Process X)
      → Ends X p es m
      → Ends X p es n
      → Ends X p es (if b then m else n)
  if-Ends true p es m n ended other = ended
  if-Ends false p es m n other ended = ended

  started-Ends :
      (req : Request) (s : Surroundings) (r : Routed) (e : Engine) (g : Process X)
      → Ends X waiting g.events (started X req s r e g)
  unfolding started
  started-Ends req s r e g =
      let start = request_start r.who r.target e r.body.stream r.body.tools in
      let g' = emit start g in
      let wrote = Wrote-one waiting running g.events start refl in
      let timeout =
        request_timeout X.lib.float_seconds X.settings.max_request_timeout_s
          (header "x-gateway-timeout" req) in
      let streaming = going X (stream X s r e g') in
      let streaming-Ends : Ends X running g'.events streaming =
        going-Ends running g'.events (stream X s r e g') (stream-Ended X s r e g') in
      let serving = serve X req s r e timeout g' in
      if-Ends r.body.stream waiting g.events streaming serving
        (Ends-after X waiting running g.events g'.events streaming wrote streaming-Ends)
        (Ends-after X waiting running g.events g'.events serving wrote
          (serve-Ends X req s r e timeout g'))

  dispatch-Ends :
      (req : Request) (s : Surroundings) (r : Routed) (g : Process X)
      → Ends X waiting g.events (dispatch X req s r g)
  unfolding dispatch
  dispatch-Ends req s r g =
      let (e, slot) =
        select_engine X.lib.float_of X.settings.engine X.lib.random X.settings.engine_overrides
          r.target.provider g.engine in
      started-Ends req s r e (record g { engine = slot })

-- For any client, clocks, database, limiter's server and providers of the model, in which an answer's
-- usage and content count as missing where they have another type than OpenAI's format gives them:
-- the events that one request adds are a word of the protocol, and the phase that they lead to fits
-- the response: limits and guardrails only before the start or after it in their places, one start at
-- most, and after a start one terminal event, with an answer for a success and a refusal for a
-- failure. Two kinds of requests are left without a terminal event: a stream that its provider broke
-- off, and one that an exception ends with a 500.
pub chat_completions-Ended :
    (X : Externals) (req : Request) (s : Surroundings) (g : Process X)
    → let (r, g') = chat_completions X req s g in Ended waiting g.events r g'.events
unfolding chat_completions
chat_completions-Ended X req s g = Ends-Ended X waiting g.events _ (
    and_then-Ends X waiting g.events (admit X req s g) (dispatch X req s) (admit-Keeps X req s g)
      (λ r g'. dispatch-Ends X req s r g'))
