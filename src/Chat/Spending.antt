-- ===== src/Chat/Spending.antt =====
-- What a request is charged: an answer that is delivered at once, and nothing else.
use agnos_proxy_oss.Base.{
  ℕ, suc, ◌+◌, ◌≤◌, ◌<◌, ◌≡◌, refl, ◌∙◌, ap, Option, none, some, List, [], ◌∷◌, Bool, true, false,
  String, arith, Bool-cases, inl, inr, ◌==◌, string_eq, list_eq, nat_eq,
}
use agnos_proxy_oss.Base.Text.{text}
use agnos_proxy_oss.Base.Json.{Json, null, bool, int, float, str, arr, obj, Fields}
use agnos_proxy_oss.Budgets
use agnos_proxy_oss.Budgets.{add_live_spend, live_delta_ttl, Ledger}
use agnos_proxy_oss.Budgets.Check.{check_budget, Alerted}
use agnos_proxy_oss.Budgets.Live.{check_budget-add_live_spend}
use agnos_proxy_oss.Budgets.Decision.{is_allowed}
use agnos_proxy_oss.Guardrails
use agnos_proxy_oss.Pricing.{compute_cost}
use agnos_proxy_oss.Fallback.{FallbackResult, is_ok}
use agnos_proxy_oss.Fallback.Execute.{execute}
use agnos_proxy_oss.Errors.{ErrorType}
use agnos_proxy_oss.Engines.{Engine}
use agnos_proxy_oss.Chat.{
  Request, Externals, Process, Surroundings, Stage, go, stop, Response, refused, and_then,
}
use agnos_proxy_oss.Chat.Parts.{Routed}
use agnos_proxy_oss.Chat.Gates.{charged, budget_request, check_spend}
use agnos_proxy_oss.Chat.Serve.{
  hit, looked_up, replay_key, replay, cache_key, mapped, reported, invoke, flagged, screen_output,
  settle, serve, stored, world, usage, out_text, effective_mode,
}

module _ (X : Externals) where
  charged-refused :
      (r : Routed) (d : Budgets.BudgetDecision) (g : Process X)
      → is_allowed d ≡ false
      → (charged X r d g).0 ≡ stop (refused 402 "budget_exceeded" [])
  charged-refused r Budgets.allowed g h = ground arith
  charged-refused r (Budgets.refused scope cap spent) g h = refl

  ledger-stored :
      (req : Request) (s : Surroundings) (body : Fields) (key : Option String) (g : Process X)
      → (stored X req s body key g).ledger ≡ g.ledger
  ledger-stored req s body none g = refl
  ledger-stored req s body (some key) g = refl

  -- The cost of an answer.
  abbrev pub cost_of : Surroundings → FallbackResult → ℕ
  cost_of s fb =
      let (i, o) = usage fb.result.body in compute_cost s.prices (text fb.target.model_id) i o

  -- What an answer adds to the ledger.
  abbrev pub spent_on : Surroundings → Routed → FallbackResult → Ledger → Ledger
  spent_on s r fb =
      add_live_spend r.who.client_id r.who.workspace_id r.who.user_id (cost_of s fb)
        (some fb.target.model_id) s.spend_now

  ledger-settle :
      (req : Request) (s : Surroundings) (r : Routed) (e : Engine) (fb : FallbackResult)
      (out_flagged : Bool) (g : Process X)
      → (settle X req s r e fb out_flagged g).1.ledger ≡ (spent_on s r fb g.ledger.0, g.ledger.1)
  unfolding settle
  ledger-settle req s r e fb out_flagged g =
      ledger-stored req s fb.result.body (cache_key X req r) _

  -- An answer whose cost reaches the cap of its workspace closes it at once: in the next 60 seconds
  -- the budget stage answers every request of the workspace with a 402, whichever user, client or
  -- model it names and whatever the database says, as long as the ledger is the one that the answer
  -- left.
  pub check_spend-settle :
      (req : Request) (s s' : Surroundings) (r r' : Routed) (e : Engine) (fb : FallbackResult)
      (out_flagged : Bool) (g g' : Process X) (cap : ℕ)
      → g'.ledger ≡ (settle X req s r e fb out_flagged g).1.ledger
      → r'.who.workspace_id ≡ r.who.workspace_id
      → (budget_request X s' r').caps.ws_cap ≡ some (suc cap)
      → suc cap ≤ cost_of s fb
      → s'.budget_after < s.spend_now + live_delta_ttl
      → (check_spend X s' r' g').0 ≡ stop (refused 402 "budget_exceeded" [])
  unfolding check_spend
  check_spend-settle req s s' r r' e fb out_flagged g g' cap same own capped big soon =
      let q = budget_request X s' r' in
      let left = same ∙ ledger-settle req s r e fb out_flagged g in
      let l =
        add_live_spend r.who.client_id r'.who.workspace_id r.who.user_id (cost_of s fb)
          (some fb.target.model_id) s.spend_now g.ledger.0 in
      let here : g'.ledger ≡ (l, g.ledger.1) = rw own left in
      let closed =
        check_budget-add_live_spend r.who.client_id r.who.user_id (cost_of s fb) cap
          (some fb.target.model_id) s.spend_now g.ledger.0 q s'.budget_cutoff s'.request_log
          s'.budget_now s'.budget_after g.ledger.1 capped big soon in
      let check : Ledger × Alerted → Budgets.BudgetDecision =
        λ d. (check_budget q s'.budget_cutoff s'.request_log s'.budget_now s'.budget_after d).0 in
      charged-refused r' (check g'.ledger) _ (ap (λ d. is_allowed (check d)) here ∙ closed)

  -- A stage that leaves the ledger as it is.
  abbrev IsFree {ℓ} : {A : Type ℓ} → Process X → Stage A × Process X → Type 0
  IsFree g (o, g') = g'.ledger ≡ g.ledger

  hit-IsFree : (s : Surroundings) (r : Routed) (v : Json) (g : Process X) → IsFree g (hit X s r v g)
  hit-IsFree s r null g = refl
  hit-IsFree s r (bool b) g = refl
  hit-IsFree s r (int n) g = refl
  hit-IsFree s r (float n) g = refl
  hit-IsFree s r (str t) g = refl
  hit-IsFree s r (arr xs) g = refl
  hit-IsFree s r (obj d) g = refl

  looked_up-IsFree :
      (s : Surroundings) (r : Routed) (o : Option String) (g : Process X)
      → IsFree g (looked_up X s r o g)
  looked_up-IsFree s r none g = refl
  looked_up-IsFree s r (some value) g = hit-IsFree s r (X.lib.loads value) g

  replay_key-IsFree :
      (s : Surroundings) (r : Routed) (key : Option String) (g : Process X)
      → IsFree g (replay_key X s r key g)
  replay_key-IsFree s r none g = refl
  replay_key-IsFree s r (some key) g = looked_up-IsFree s r _ _

  replay-IsFree :
      (req : Request) (s : Surroundings) (r : Routed) (g : Process X)
      → IsFree g (replay X req s r g)
  unfolding replay
  replay-IsFree req s r g = replay_key-IsFree s r (cache_key X req r) g

  mapped-IsFree :
      (r : Routed) (e : Engine) (fb : FallbackResult) (answer : Option (ℕ × ErrorType))
      (g : Process X)
      → IsFree g (mapped X r e fb answer g)
  mapped-IsFree r e fb none g = refl
  mapped-IsFree r e fb (some answer) g = refl

  reported-IsFree :
      (r : Routed) (e : Engine) (o : Option FallbackResult) (g : Process X)
      → IsFree g (reported X r e o g)
  unfolding reported
  reported-IsFree r e none g = refl
  reported-IsFree r e (some fb) g = elim (Bool-cases (is_ok fb.result)) [
    | inl h ↦ rw h refl
    | inr h ↦ rw h (mapped-IsFree r e fb _ g)
  ]

  invoke-IsFree :
      (r : Routed) (e : Engine) (timeout : Option ℕ) (g : Process X)
      → IsFree g (invoke X r e timeout g)
  unfolding invoke
  invoke-IsFree r e timeout g =
      let (fb, breaker, w) =
        execute (world X e r.body) X.settings.registry r.who.workspace_id X.settings.max_retries
          timeout r.targets g.breaker g.upstream in
      reported-IsFree r e fb (record g { breaker = breaker; upstream = w })

  flagged-IsFree :
      (req : Request) (r : Routed) (e : Engine) (fb : FallbackResult)
      (found : List Guardrails.Finding) (g : Process X)
      → IsFree g (flagged X req r e fb found g)
  unfolding flagged
  flagged-IsFree req r e fb [] g = refl
  flagged-IsFree req r e fb (f ∷ fs) g =
      elim (Bool-cases (effective_mode X req r == text "block")) [
        | inl h ↦ rw h refl
        | inr h ↦ rw h refl
      ]

  screen_output-IsFree :
      (req : Request) (s : Surroundings) (r : Routed) (e : Engine) (fb : FallbackResult)
      (g : Process X)
      → IsFree g (screen_output X req s r e fb g)
  unfolding screen_output
  screen_output-IsFree req s r e fb g = elim (Bool-cases (out_text fb.result.body == "")) [
    | inl h ↦ rw h refl
    | inr h ↦ rw h (flagged-IsFree req r e fb _ _)
  ]

  abbrev is_stopped {ℓ} : {A : Type ℓ} → Stage A → Bool
  is_stopped (go a) = false
  is_stopped (stop r) = true

  and_then-IsFree {ℓ κ} :
      {A : Type ℓ} {B : Type κ} (g : Process X) (m : Stage A × Process X)
      (f : A → Process X → Stage B × Process X)
      → IsFree g m
      → ((a : A) (g' : Process X) → is_stopped (f a g').0 ≡ true → IsFree g' (f a g'))
      → is_stopped (and_then f m).0 ≡ true
      → IsFree g (and_then f m)
  and_then-IsFree g (go a, g') f free rest h = rest a g' h ∙ free
  and_then-IsFree g (stop r, g') f free rest h = free

  settle-goes :
      (req : Request) (s : Surroundings) (r : Routed) (e : Engine) (fb : FallbackResult)
      (out_flagged : Bool) (g : Process X)
      → is_stopped (settle X req s r e fb out_flagged g).0 ≡ false
  unfolding settle
  settle-goes req s r e fb out_flagged g = refl

  -- A request that is not streamed and does not end with a delivered answer is charged nothing: not
  -- when every provider fails or the mapping of its error raises, not when it is replayed, and not when its answer, which the provider
  -- has been paid for, is blocked by the guardrails.
  pub serve-stop :
      (req : Request) (s : Surroundings) (r : Routed) (e : Engine) (timeout : Option ℕ)
      (g : Process X) (answer : Response)
      → (serve X req s r e timeout g).0 ≡ stop answer
      → (serve X req s r e timeout g).1.ledger ≡ g.ledger
  unfolding serve
  serve-stop req s r e timeout g answer h =
      and_then-IsFree g (replay X req s r g) _ (replay-IsFree req s r g)
        (λ u g1.
          and_then-IsFree g1 (invoke X r e timeout g1) _ (invoke-IsFree r e timeout g1) (λ fb g2.
            and_then-IsFree g2 (screen_output X req s r e fb g2) _
              (screen_output-IsFree req s r e fb g2)
              (λ out_flagged g3 stopped.
                ground (arith, settle-goes req s r e fb out_flagged g3, stopped))))
        (ap is_stopped h)
