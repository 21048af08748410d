-- ===== src/Chat/Before.antt =====
-- The stages before the engine leave the side of the providers as it is.
use agnos_proxy_oss.Base.{
  ℕ, ◌≡◌, refl, ◌∙◌, Option, none, some, List, [], ◌∷◌, String, is_empty, Bool-cases, inl, inr,
  ◌==◌, string_eq, list_eq, nat_eq,
}
use agnos_proxy_oss.Auth
use agnos_proxy_oss.Auth.{WorkspaceContext}
use agnos_proxy_oss.Registry
use agnos_proxy_oss.Registry.{ResolvedTarget}
use agnos_proxy_oss.RateLimit
use agnos_proxy_oss.Budgets
use agnos_proxy_oss.Guardrails
use agnos_proxy_oss.Chat.{
  Body, Parsed, malformed, not_an_object, parsed, Request, Externals, Process, Surroundings, Stage,
  go, stop, and_then,
}
use agnos_proxy_oss.Chat.Parts.{Routed, http_status}
use agnos_proxy_oss.Chat.Identity.{
  read_body, principal, authenticate, require_headers, routing_failed, routed, route,
}
use agnos_proxy_oss.Chat.Gates.{
  check_eligible, limited, rate_stage, check_rate, charged, check_spend, judged, screened, screen,
  truncate, wants_truncation, admit,
}
use agnos_proxy_oss.Breaker.{CircuitBreaker}
use agnos_proxy_oss.ResponseCache.{Mem}

module _ (X : Externals) where
  -- The providers, the breaker and the response cache.
  abbrev pub Side : Type 0
  Side = (X.upstream.State × CircuitBreaker) × (Mem × X.redis.State)

  abbrev pub side : Process X → Side
  side g = ((g.upstream, g.breaker), (g.mem, g.redis))

  -- A stage that leaves that side as it is.
  abbrev pub IsQuiet {ℓ} : {A : Type ℓ} → Process X → Stage A × Process X → Type 0
  IsQuiet g (o, g') = side g' ≡ side g

  and_then-IsQuiet {ℓ κ} :
      {A : Type ℓ} {B : Type κ} (g : Process X) (m : Stage A × Process X)
      (f : A → Process X → Stage B × Process X)
      → IsQuiet g m
      → ((a : A) (g' : Process X) → IsQuiet g' (f a g'))
      → IsQuiet g (and_then f m)
  and_then-IsQuiet g (go a, g') f quiet rest = rest a g' ∙ quiet
  and_then-IsQuiet g (stop r, g') f quiet rest = quiet

  read_body-IsQuiet : (b : Parsed) (g : Process X) → IsQuiet g (read_body X b g)
  read_body-IsQuiet malformed g = refl
  read_body-IsQuiet not_an_object g = refl
  read_body-IsQuiet (parsed b) g = refl

  principal-IsQuiet :
      (o : Option (Auth.Result ℕ × Auth.Store)) (g : Process X) → IsQuiet g (principal X o g)
  principal-IsQuiet none g = refl
  principal-IsQuiet (some (Auth.ok a, st)) g = refl
  principal-IsQuiet (some (Auth.err (Auth.unauthorized why), st)) g = refl
  principal-IsQuiet (some (Auth.err Auth.unavailable, st)) g = refl

  authenticate-IsQuiet :
      (req : Request) (s : Surroundings) (g : Process X) → IsQuiet g (authenticate X req s g)
  unfolding authenticate
  authenticate-IsQuiet req s g = principal-IsQuiet _ g

  require_headers-IsQuiet :
      (req : Request) (s : Surroundings) (ws : WorkspaceContext) (g : Process X)
      → IsQuiet g (require_headers X req s ws g)
  unfolding require_headers
  require_headers-IsQuiet req s ws g = refl

  routing_failed-IsQuiet :
      (req : Request) (b : Body) (ws : WorkspaceContext) (status : Option ℕ) (g : Process X)
      → IsQuiet g (routing_failed X req b ws status g)
  routing_failed-IsQuiet req b ws none g = refl
  routing_failed-IsQuiet req b ws (some status) g = refl

  routed-IsQuiet :
      (req : Request) (b : Body) (ws : WorkspaceContext)
      (o : Registry.Result (String × List ResolvedTarget)) (g : Process X)
      → IsQuiet g (routed X req b ws o g)
  routed-IsQuiet req b ws (Registry.err e) g = routing_failed-IsQuiet req b ws (http_status e) g
  routed-IsQuiet req b ws (Registry.ok (alias, [])) g = refl
  routed-IsQuiet req b ws (Registry.ok (alias, t ∷ ts)) g = refl

  route-IsQuiet :
      (req : Request) (b : Body) (ws : WorkspaceContext) (g : Process X)
      → IsQuiet g (route X req b ws g)
  unfolding route
  route-IsQuiet req b ws g = routed-IsQuiet req b ws _ g

  check_eligible-IsQuiet :
      (s : Surroundings) (r : Routed) (g : Process X) → IsQuiet g (check_eligible X s r g)
  unfolding check_eligible
  check_eligible-IsQuiet s r g = refl

  limited-IsQuiet :
      (r : Routed) (q : RateLimit.Request) (reset : ℕ) (v : RateLimit.Verdict) (g : Process X)
      → IsQuiet g (limited X r q reset v g)
  limited-IsQuiet r q reset RateLimit.allowed g = refl
  limited-IsQuiet r q reset (RateLimit.refused scope kind tenths) g = refl

  rate_stage-IsQuiet :
      (s : Surroundings) (r : Routed) (row : Option (Option RateLimit.Limits)) (g : Process X)
      → IsQuiet g (rate_stage X s r row g)
  rate_stage-IsQuiet s r none g = refl
  rate_stage-IsQuiet s r (some row) g = limited-IsQuiet r _ s.reset _ _

  check_rate-IsQuiet :
      (s : Surroundings) (r : Routed) (g : Process X) → IsQuiet g (check_rate X s r g)
  unfolding check_rate
  check_rate-IsQuiet s r g = rate_stage-IsQuiet s r _ g

  charged-IsQuiet :
      (r : Routed) (d : Budgets.BudgetDecision) (g : Process X) → IsQuiet g (charged X r d g)
  charged-IsQuiet r Budgets.allowed g = refl
  charged-IsQuiet r (Budgets.refused scope cap spent) g = refl

  check_spend-IsQuiet :
      (s : Surroundings) (r : Routed) (g : Process X) → IsQuiet g (check_spend X s r g)
  unfolding check_spend
  check_spend-IsQuiet s r g = charged-IsQuiet r _ _

  judged-IsQuiet :
      (r : Routed) (o : Guardrails.GuardrailOutcome) (g : Process X) → IsQuiet g (judged X r o g)
  unfolding judged
  judged-IsQuiet r o g = elim (Bool-cases (is_empty o.findings)) [
    | inl e ↦ rw e refl
    | inr e ↦ elim (Bool-cases o.blocked) [
      | inl b ↦ rw (e, b) refl
      | inr b ↦ elim (Bool-cases (o.action == "redact")) [
        | inl a ↦ rw (e, b, a) refl
        | inr a ↦ rw (e, b, a) refl
      ]
    ]
  ]

  screened-IsQuiet :
      (req : Request) (s : Surroundings) (r : Routed) (ids : Option (List ℕ)) (g : Process X)
      → IsQuiet g (screened X req s r ids g)
  screened-IsQuiet req s r none g = refl
  screened-IsQuiet req s r (some ids) g = judged-IsQuiet r _ _

  screen-IsQuiet :
      (req : Request) (s : Surroundings) (r : Routed) (g : Process X)
      → IsQuiet g (screen X req s r g)
  unfolding screen
  screen-IsQuiet req s r g = screened-IsQuiet req s r _ g

  truncate-IsQuiet : (req : Request) (r : Routed) (g : Process X) → IsQuiet g (truncate X req r g)
  unfolding truncate
  truncate-IsQuiet req r g = elim (Bool-cases (wants_truncation X req r)) [
    | inl h ↦ rw h refl
    | inr h ↦ rw h refl
  ]

  pub admit-IsQuiet :
      (req : Request) (s : Surroundings) (g : Process X) → IsQuiet g (admit X req s g)
  unfolding admit
  admit-IsQuiet req s g =
      and_then-IsQuiet g (read_body X req.body g) _ (read_body-IsQuiet req.body g) (λ b g1.
        and_then-IsQuiet g1 (authenticate X req s g1) _ (authenticate-IsQuiet req s g1) (λ ws g2.
          and_then-IsQuiet g2 (require_headers X req s ws g2) _
            (require_headers-IsQuiet req s ws g2)
            (λ u g3.
              and_then-IsQuiet g3 (route X req b ws g3) _ (route-IsQuiet req b ws g3) (λ r g4.
                and_then-IsQuiet g4 (check_eligible X s r g4) _ (check_eligible-IsQuiet s r g4)
                  (λ u g5.
                    and_then-IsQuiet g5 (check_rate X s r g5) _ (check_rate-IsQuiet s r g5) (λ u g6.
                      and_then-IsQuiet g6 (check_spend X s r g6) _ (check_spend-IsQuiet s r g6)
                        (λ u g7.
                          and_then-IsQuiet g7 (screen X req s r g7) _ (screen-IsQuiet req s r g7)
                            (λ r' g8. truncate-IsQuiet req r' g8))))))))
