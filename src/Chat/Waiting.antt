-- ===== src/Chat/Waiting.antt =====
-- Up to the choice of an engine, the handler keeps to the protocol of the events.
use agnos_proxy_oss.Base.{
  ℕ, refl, Option, none, some, List, [], ◌∷◌, Bool, true, false, String, arith, is_empty,
  Bool-cases, inl, inr, ◌==◌, string_eq, list_eq, nat_eq,
}
use agnos_proxy_oss.Base.Text.{Text}
use agnos_proxy_oss.Base.Dict.{Dict}
use agnos_proxy_oss.Auth
use agnos_proxy_oss.Auth.{WorkspaceContext}
use agnos_proxy_oss.Registry
use agnos_proxy_oss.Registry.{ResolvedTarget}
use agnos_proxy_oss.RateLimit
use agnos_proxy_oss.Budgets
use agnos_proxy_oss.Guardrails
use agnos_proxy_oss.Chunker.{Message}
use agnos_proxy_oss.Chat.{
  Body, Parsed, malformed, not_an_object, parsed, Request, Externals, Process, Surroundings,
  refused, escaped,
}
use agnos_proxy_oss.Chat.Parts.{Routed, http_status}
use agnos_proxy_oss.Chat.Identity.{
  read_body, principal, authenticate, required_present, require_headers, routing_failed, routed,
  route,
}
use agnos_proxy_oss.Chat.Gates.{
  eligible, check_eligible, limited, rate_stage, check_rate, charged, check_spend, judged, screened,
  screen, cut, truncate, wants_truncation, admit,
}
use agnos_proxy_oss.Chat.Protocol.{
  waiting, rejected, Keeps, Wrote-nothing, Ended-after, Wrote-decisions_waiting, and_then-Keeps,
  silent, noted, IsSilent, IsSilent-Keeps,
}

module _ (X : Externals) where
  read_body-Keeps : (b : Parsed) (g : Process X) → Keeps X waiting g.events (read_body X b g)
  read_body-Keeps malformed g = silent waiting g.events (refused 400 "malformed_json" []) refl
  read_body-Keeps not_an_object g = silent waiting g.events (refused 400 "invalid_body" []) refl
  read_body-Keeps (parsed b) g = Wrote-nothing waiting g.events

  principal-Keeps :
      (o : Option (Auth.Result ℕ × Auth.Store)) (g : Process X)
      → Keeps X waiting g.events (principal X o g)
  principal-Keeps none g = silent waiting g.events escaped refl
  principal-Keeps (some (Auth.ok a, st)) g = Wrote-nothing waiting g.events
  principal-Keeps (some (Auth.err (Auth.unauthorized why), st)) g =
      silent waiting g.events (refused 401 why []) refl
  principal-Keeps (some (Auth.err Auth.unavailable, st)) g =
      silent waiting g.events (refused 503 "unavailable" []) refl

  authenticate-Keeps :
      (req : Request) (s : Surroundings) (g : Process X)
      → Keeps X waiting g.events (authenticate X req s g)
  unfolding authenticate
  authenticate-Keeps req s g = principal-Keeps _ g

  required_present-IsSilent :
      (hs : Dict String String) (o : Option (List Text)) → IsSilent (required_present X hs o)
  required_present-IsSilent hs none = refl
  required_present-IsSilent hs (some required) = ground arith

  require_headers-Keeps :
      (req : Request) (s : Surroundings) (ws : WorkspaceContext) (g : Process X)
      → Keeps X waiting g.events (require_headers X req s ws g)
  unfolding require_headers
  require_headers-Keeps req s ws g =
      IsSilent-Keeps X (required_present X req.headers _) _
        (required_present-IsSilent req.headers _)

  routing_failed-Keeps :
      (req : Request) (b : Body) (ws : WorkspaceContext) (status : Option ℕ) (g : Process X)
      → Keeps X waiting g.events (routing_failed X req b ws status g)
  routing_failed-Keeps req b ws none g = silent waiting g.events escaped refl
  routing_failed-Keeps req b ws (some status) g =
      noted waiting rejected g.events _ (refused status "routing_failed" []) refl refl

  routed-Keeps :
      (req : Request) (b : Body) (ws : WorkspaceContext)
      (o : Registry.Result (String × List ResolvedTarget)) (g : Process X)
      → Keeps X waiting g.events (routed X req b ws o g)
  routed-Keeps req b ws (Registry.err e) g = routing_failed-Keeps req b ws (http_status e) g
  routed-Keeps req b ws (Registry.ok (alias, [])) g = silent waiting g.events escaped refl
  routed-Keeps req b ws (Registry.ok (alias, t ∷ ts)) g = Wrote-nothing waiting g.events

  route-Keeps :
      (req : Request) (b : Body) (ws : WorkspaceContext) (g : Process X)
      → Keeps X waiting g.events (route X req b ws g)
  unfolding route
  route-Keeps req b ws g = routed-Keeps req b ws _ g

  eligible-IsSilent : (o : Option Bool) → IsSilent (eligible X o)
  eligible-IsSilent none = refl
  eligible-IsSilent (some true) = tt
  eligible-IsSilent (some false) = refl

  check_eligible-Keeps :
      (s : Surroundings) (r : Routed) (g : Process X)
      → Keeps X waiting g.events (check_eligible X s r g)
  unfolding check_eligible
  check_eligible-Keeps s r g = IsSilent-Keeps X (eligible X _) _ (eligible-IsSilent _)

  limited-Keeps :
      (r : Routed) (q : RateLimit.Request) (reset : ℕ) (v : RateLimit.Verdict) (g : Process X)
      → Keeps X waiting g.events (limited X r q reset v g)
  limited-Keeps r q reset RateLimit.allowed g = Wrote-nothing waiting g.events
  limited-Keeps r q reset (RateLimit.refused scope kind tenths) g =
      noted waiting rejected g.events _ (refused 429 "rate_limit_exceeded" _) refl refl

  rate_stage-Keeps :
      (s : Surroundings) (r : Routed) (row : Option (Option RateLimit.Limits)) (g : Process X)
      → Keeps X waiting g.events (rate_stage X s r row g)
  rate_stage-Keeps s r none g = silent waiting g.events escaped refl
  rate_stage-Keeps s r (some row) g = limited-Keeps r _ s.reset _ _

  check_rate-Keeps :
      (s : Surroundings) (r : Routed) (g : Process X)
      → Keeps X waiting g.events (check_rate X s r g)
  unfolding check_rate
  check_rate-Keeps s r g = rate_stage-Keeps s r _ g

  charged-Keeps :
      (r : Routed) (d : Budgets.BudgetDecision) (g : Process X)
      → Keeps X waiting g.events (charged X r d g)
  charged-Keeps r Budgets.allowed g = Wrote-nothing waiting g.events
  charged-Keeps r (Budgets.refused scope cap spent) g =
      noted waiting rejected g.events _ (refused 402 "budget_exceeded" []) refl refl

  check_spend-Keeps :
      (s : Surroundings) (r : Routed) (g : Process X)
      → Keeps X waiting g.events (check_spend X s r g)
  unfolding check_spend
  check_spend-Keeps s r g = charged-Keeps r _ _

  judged-Keeps :
      (r : Routed) (o : Guardrails.GuardrailOutcome) (g : Process X)
      → Keeps X waiting g.events (judged X r o g)
  unfolding judged
  judged-Keeps r o g =
      let decided = Wrote-decisions_waiting r.who o.rule o.action "input" o.findings g.events in
      elim (Bool-cases (is_empty o.findings)) [
        | inl e ↦ rw e (Wrote-nothing waiting g.events)
        | inr e ↦ elim (Bool-cases o.blocked) [
          | inl b ↦
              rw (e, b)
                (Ended-after waiting waiting g.events _ _ (refused 422 "guardrail_violation" [])
                  decided
                  (noted waiting rejected _ _ (refused 422 "guardrail_violation" []) refl refl))
          | inr b ↦ elim (Bool-cases (o.action == "redact")) [
            | inl a ↦ rw (e, b, a) decided
            | inr a ↦ rw (e, b, a) decided
          ]
        ]
      ]

  screened-Keeps :
      (req : Request) (s : Surroundings) (r : Routed) (ids : Option (List ℕ)) (g : Process X)
      → Keeps X waiting g.events (screened X req s r ids g)
  screened-Keeps req s r none g = silent waiting g.events escaped refl
  screened-Keeps req s r (some ids) g = judged-Keeps r _ _

  screen-Keeps :
      (req : Request) (s : Surroundings) (r : Routed) (g : Process X)
      → Keeps X waiting g.events (screen X req s r g)
  unfolding screen
  screen-Keeps req s r g = screened-Keeps req s r _ g

  cut-IsSilent :
      (r : Routed) (ms : Option (List Message)) (window : Option ℕ) → IsSilent (cut X r ms window)
  cut-IsSilent r none window = refl
  cut-IsSilent r (some ms) none = refl
  cut-IsSilent r (some ms) (some window) = tt

  truncate-Keeps :
      (req : Request) (r : Routed) (g : Process X) → Keeps X waiting g.events (truncate X req r g)
  unfolding truncate
  truncate-Keeps req r g = elim (Bool-cases (wants_truncation X req r)) [
    | inl h ↦ rw h (IsSilent-Keeps X (cut X r _ _) g (cut-IsSilent r _ _))
    | inr h ↦ rw h (Wrote-nothing waiting g.events)
  ]

  pub admit-Keeps :
      (req : Request) (s : Surroundings) (g : Process X)
      → Keeps X waiting g.events (admit X req s g)
  unfolding admit
  admit-Keeps req s g =
      and_then-Keeps X waiting g.events (read_body X req.body g) _ (read_body-Keeps req.body g)
        (λ b g1.
          and_then-Keeps X waiting g1.events (authenticate X req s g1) _
            (authenticate-Keeps req s g1)
            (λ ws g2.
              and_then-Keeps X waiting g2.events (require_headers X req s ws g2) _
                (require_headers-Keeps req s ws g2)
                (λ u g3.
                  and_then-Keeps X waiting g3.events (route X req b ws g3) _
                    (route-Keeps req b ws g3)
                    (λ r g4.
                      and_then-Keeps X waiting g4.events (check_eligible X s r g4) _
                        (check_eligible-Keeps s r g4)
                        (λ u g5.
                          and_then-Keeps X waiting g5.events (check_rate X s r g5) _
                            (check_rate-Keeps s r g5)
                            (λ u g6.
                              and_then-Keeps X waiting g6.events (check_spend X s r g6) _
                                (check_spend-Keeps s r g6)
                                (λ u g7.
                                  and_then-Keeps X waiting g7.events (screen X req s r g7) _
                                    (screen-Keeps req s r g7)
                                    (λ r' g8. truncate-Keeps req r' g8))))))))
