-- ===== src/Chat/Running.antt =====
-- From the start event on, the handler keeps to the protocol of the events.
use agnos_proxy_oss.Base.{
  ℕ, ◌≡◌, refl, ◌∙◌, ap, Option, none, some, List, [], ◌∷◌, ◌++◌, Bool, true, false, String, arith,
  Bool-cases, Option-cases, inl, inr, ◌==◌, string_eq, list_eq, nat_eq,
}
use agnos_proxy_oss.Base.Text.{text}
use agnos_proxy_oss.Base.Json.{Json, null, bool, int, float, str, arr, obj, Fields}
use agnos_proxy_oss.Registry.{ResolvedTarget}
use agnos_proxy_oss.Guardrails
use agnos_proxy_oss.Fallback.{FallbackResult, is_ok}
use agnos_proxy_oss.Fallback.Execute.{execute}
use agnos_proxy_oss.Errors.{ErrorType, map_bifrost_error}
use agnos_proxy_oss.Errors
use agnos_proxy_oss.Engines.{Engine}
use agnos_proxy_oss.Chat.{
  Request, Event, Externals, Process, Surroundings, Response, Streamed, refused, replayed, streamed,
  escaped,
}
use agnos_proxy_oss.Chat.Parts.{Routed}
use agnos_proxy_oss.Chat.Serve.{
  hit, looked_up, replay_key, replay, provider_failed, reported, invoke, flagged, screen_output,
  stored, settle, serve, world, effective_mode, out_text, type_name, cache_key, mapped,
  fallback_events,
}
use agnos_proxy_oss.Chat.Stream.{
  recorded, stream, attached, accepts, error_event_fields, stream_error_keywords,
}
use agnos_proxy_oss.Chat.Protocol.{
  running, failed, succeeded, cached, Wrote, Ended, Keeps, Wrote-nothing, Wrote-one, Wrote-trans,
  Ended-after, Wrote-decisions_running, Wrote-fallback_events, noted, silent, is_broken, Ends,
  and_then-Ends,
}

module _ (X : Externals) where
  hit-Keeps :
      (s : Surroundings) (r : Routed) (v : Json) (g : Process X)
      → Keeps X running g.events (hit X s r v g)
  hit-Keeps s r null g = Wrote-nothing running g.events
  hit-Keeps s r (bool b) g = noted running cached g.events _ (replayed (bool b)) refl refl
  hit-Keeps s r (int n) g = noted running cached g.events _ (replayed (int n)) refl refl
  hit-Keeps s r (float n) g = noted running cached g.events _ (replayed (float n)) refl refl
  hit-Keeps s r (str t) g = noted running cached g.events _ (replayed (str t)) refl refl
  hit-Keeps s r (arr xs) g = noted running cached g.events _ (replayed (arr xs)) refl refl
  hit-Keeps s r (obj d) g = noted running cached g.events _ (replayed (obj d)) refl refl

  looked_up-Keeps :
      (s : Surroundings) (r : Routed) (o : Option String) (g : Process X)
      → Keeps X running g.events (looked_up X s r o g)
  looked_up-Keeps s r none g = Wrote-nothing running g.events
  looked_up-Keeps s r (some stored_text) g = hit-Keeps s r (X.lib.loads stored_text) g

  replay_key-Keeps :
      (s : Surroundings) (r : Routed) (key : Option String) (g : Process X)
      → Keeps X running g.events (replay_key X s r key g)
  replay_key-Keeps s r none g = Wrote-nothing running g.events
  replay_key-Keeps s r (some key) g = looked_up-Keeps s r _ _

  replay-Keeps :
      (req : Request) (s : Surroundings) (r : Routed) (g : Process X)
      → Keeps X running g.events (replay X req s r g)
  unfolding replay
  replay-Keeps req s r g = replay_key-Keeps s r (cache_key X req r) g

  provider_failed-Ended :
      (r : Routed) (e : Engine) (t : ResolvedTarget) (answer : ℕ × ErrorType) (es : List Event)
      (g : Process X)
      → Wrote running es running g.events
      → Keeps X running es (provider_failed X r e t answer g)
  provider_failed-Ended r e t (code, type_) es g wrote =
      let stopped = refused code (type_name type_) [] in
      Ended-after running running es g.events _ stopped wrote
        (noted running failed g.events _ stopped refl refl)

  mapped-Keeps :
      (r : Routed) (e : Engine) (fb : FallbackResult) (answer : Option (ℕ × ErrorType))
      (g : Process X)
      → Keeps X running g.events (mapped X r e fb answer g)
  mapped-Keeps r e fb none g = silent running g.events escaped refl
  mapped-Keeps r e fb (some answer) g =
      let g' : Process X = record g {
        events = g.events ++ fallback_events r.who fb.fallbacks_emitted;
      } in
      provider_failed-Ended r e fb.target answer g.events g'
        (Wrote-fallback_events r.who fb.fallbacks_emitted g.events)

  reported-Keeps :
      (r : Routed) (e : Engine) (o : Option FallbackResult) (g : Process X)
      → Keeps X running g.events (reported X r e o g)
  unfolding reported
  reported-Keeps r e none g =
      provider_failed-Ended r e r.target (502, Errors.upstream_error) g.events g
        (Wrote-nothing running g.events)
  reported-Keeps r e (some fb) g =
      let fell_back = Wrote-fallback_events r.who fb.fallbacks_emitted g.events in
      elim (Bool-cases (is_ok fb.result)) [
        | inl h ↦ rw h fell_back
        | inr h ↦ rw h (mapped-Keeps r e fb _ g)
      ]

  invoke-Keeps :
      (r : Routed) (e : Engine) (timeout : Option ℕ) (g : Process X)
      → Keeps X running g.events (invoke X r e timeout g)
  unfolding invoke
  invoke-Keeps r e timeout g =
      let (fb, breaker, w) =
        execute (world X e r.body) X.settings.registry r.who.workspace_id X.settings.max_retries
          timeout r.targets g.breaker g.upstream in
      reported-Keeps r e fb (record g { breaker = breaker; upstream = w })

  flagged-Keeps :
      (req : Request) (r : Routed) (e : Engine) (fb : FallbackResult)
      (found : List Guardrails.Finding) (g : Process X)
      → Keeps X running g.events (flagged X req r e fb found g)
  unfolding flagged
  flagged-Keeps req r e fb [] g = Wrote-nothing running g.events
  flagged-Keeps req r e fb (f ∷ fs) g =
      let decided =
        Wrote-decisions_running r.who "output-scan" "output" "output" (f ∷ fs) g.events in
      elim (Bool-cases (effective_mode X req r == text "block")) [
        | inl h ↦
            let stopped = refused 422 "guardrail_violation" _ in
            rw h (
              Ended-after running running g.events _ _ stopped decided
                (noted running failed _ _ stopped refl refl))
        | inr h ↦ rw h decided
      ]

  screen_output-Keeps :
      (req : Request) (s : Surroundings) (r : Routed) (e : Engine) (fb : FallbackResult)
      (g : Process X)
      → Keeps X running g.events (screen_output X req s r e fb g)
  unfolding screen_output
  screen_output-Keeps req s r e fb g = elim (Bool-cases (out_text fb.result.body == "")) [
    | inl h ↦ rw h (Wrote-nothing running g.events)
    | inr h ↦ rw h (flagged-Keeps req r e fb _ _)
  ]

  events-stored :
      (req : Request) (s : Surroundings) (body : Fields) (key : Option String) (g : Process X)
      → (stored X req s body key g).events ≡ g.events
  events-stored req s body none g = refl
  events-stored req s body (some key) g = refl

  settle-Ends :
      (req : Request) (s : Surroundings) (r : Routed) (e : Engine) (fb : FallbackResult)
      (out_flagged : Bool) (g : Process X)
      → Ends X running g.events (settle X req s r e fb out_flagged g)
  unfolding settle
  settle-Ends req s r e fb out_flagged g = (
    succeeded,
    rw (events-stored req s fb.result.body (cache_key X req r) _)
        (Wrote-one running succeeded g.events _ refl),
    refl,
  )

  pub serve-Ends :
      (req : Request) (s : Surroundings) (r : Routed) (e : Engine) (timeout : Option ℕ)
      (g : Process X)
      → Ends X running g.events (serve X req s r e timeout g)
  unfolding serve
  serve-Ends req s r e timeout g =
      and_then-Ends X running g.events (replay X req s r g) _ (replay-Keeps req s r g) (λ u g1.
        and_then-Ends X running g1.events (invoke X r e timeout g1) _ (invoke-Keeps r e timeout g1)
          (λ fb g2.
            and_then-Ends X running g2.events (screen_output X req s r e fb g2) _
              (screen_output-Keeps req s r e fb g2)
              (λ out_flagged g3. settle-Ends req s r e fb out_flagged g3)))

  -- The keywords of a failed stream's event are refused.
  accepts_none : accepts error_event_fields stream_error_keywords ≡ false
  unfolding accepts
  accepts_none = refl

  recorded-Ended :
      (s : Surroundings) (r : Routed) (e : Engine) (t : ResolvedTarget) (st : Streamed)
      (g : Process X)
      → Ended running g.events (streamed st) (recorded X s r e t st g).events
  recorded-Ended s r e t st g = elim (Option-cases st.failure) [
    | inl h ↦
        let decided = Wrote-decisions_running r.who "output-audit" "audit" "output" _ g.events in
        rw h (
          succeeded,
          Wrote-trans running running succeeded g.events _ _ decided
              (Wrote-one running succeeded _ _ refl),
          refl,
        )
    | inr (name, h) ↦ rw (h, accepts_none) (running, Wrote-nothing running g.events, refl)
  ]

  pub stream-Ended :
      (s : Surroundings) (r : Routed) (e : Engine) (g : Process X)
      → Ended running g.events (stream X s r e g).0 (stream X s r e g).1.events
  unfolding stream
  stream-Ended s r e g =
      let (cred, w) = X.upstream.credential r.who.workspace_id r.target.provider g.upstream in
      let t = attached X cred r.target in
      let (st, w') = X.upstream.chat_stream e r.body t w in
      recorded-Ended s r e t st (record g { upstream = w' })

  abbrev stream_is_broken : Response → Bool
  stream_is_broken (streamed st) = is_broken st
  stream_is_broken _ = false

  recorded_broken :
      (s : Surroundings) (r : Routed) (e : Engine) (t : ResolvedTarget) (st : Streamed)
      (g : Process X)
      → is_broken st ≡ true
      → recorded X s r e t st g ≡ g
  recorded_broken s r e t st g h = elim (Option-cases st.failure) [
    | inl none_failed ↦ ground (arith, h, none_failed)
    | inr (name, h') ↦ rw (h', accepts_none) refl
  ]

  -- A stream that its provider breaks off leaves no trace: no event is written, neither an error nor a
  -- success, and nothing is charged for the chunks that were delivered.
  pub stream_broken :
      (s : Surroundings) (r : Routed) (e : Engine) (g : Process X) (st : Streamed)
      → (stream X s r e g).0 ≡ streamed st
      → is_broken st ≡ true
      → ((stream X s r e g).1.events ≡ g.events) × ((stream X s r e g).1.ledger ≡ g.ledger)
  unfolding stream
  stream_broken s r e g st same broken =
      let (cred, w) = X.upstream.credential r.who.workspace_id r.target.provider g.upstream in
      let t = attached X cred r.target in
      let (st', w') = X.upstream.chat_stream e r.body t w in
      let broken' : is_broken st' ≡ true = ap stream_is_broken same ∙ broken in
      rw (recorded_broken s r e t st' (record g { upstream = w' }) broken') (refl, refl)
