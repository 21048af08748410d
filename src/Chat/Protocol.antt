-- ===== src/Chat/Protocol.antt =====
-- The order of the events of one request, as an automaton that knows nothing of the handler, and what it
-- takes for a stage to keep to it.
use agnos_proxy_oss.Base.{
  ◌≡◌, refl, sym, Option, none, some, List, [], ◌∷◌, ◌++◌, not, Bool, true, false, String,
}
use mathlib.Core.List.{append-nil, append_assoc}
use agnos_proxy_oss.Chat.{
  Event, request_start, request_success, request_error, guardrail_decision, fallback, rate_limited,
  budget_limited, cache_hit, Response, refused, served, replayed, streamed, escaped, Externals,
  Process, Stage, go, stop, Streamed, Attribution, and_then, response,
}
use agnos_proxy_oss.Guardrails
use agnos_proxy_oss.Chat.Parts.{decisions}
use agnos_proxy_oss.Chat.Serve.{fallback_events}

-- A request is waiting until it starts, and then runs until it is over.
pub data Phase : Type 0 where
  waiting rejected running failed succeeded cached : Phase

-- Where an event leads; `none` is an event that must not come.
abbrev pub next : Phase → Event → Option Phase
next waiting (guardrail_decision who rule detector action stage) = some waiting
next waiting (rate_limited who scope kind limit) = some rejected
next waiting (budget_limited who scope cap spent) = some rejected
next waiting (request_error who provider e type_ status i) = some rejected
next waiting (request_start who t e stream tools) = some running
next running (guardrail_decision who rule detector action stage) = some running
next running (fallback who frm to reason) = some running
next running (cache_hit who provider i o saved) = some cached
next running (request_error who provider e type_ status i) = some failed
next running (request_success who t e i o cost stream) = some succeeded
next _ _ = none

abbrev pub advance : Option Phase → Event → Option Phase
advance none e = none
advance (some p) e = next p e

abbrev pub walk : Option Phase → List Event → Option Phase
walk p [] = p
walk p (e ∷ es) = walk (advance p e) es

-- The responses that leave a request in a phase. A stream that the provider broke off leaves it
-- running, and so does an exception that leaves the handler.
abbrev pub is_broken : Streamed → Bool
is_broken st = elim st.failure [ none ↦ false | some name ↦ true ]

abbrev pub fits : Phase → Response → Bool
fits waiting (refused status type_ hs) = true
fits waiting escaped = true
fits rejected (refused status type_ hs) = true
fits running (streamed st) = is_broken st
fits running escaped = true
fits failed (refused status type_ hs) = true
fits succeeded (served body hs) = true
fits succeeded (streamed st) = not (is_broken st)
fits cached (replayed v) = true
fits _ _ = false

-- The events written since `es` lead from one phase to another.
abbrev pub Wrote : Phase → List Event → Phase → List Event → Type 0
Wrote p es q es' = (new : List Event) × (es' ≡ es ++ new) × (walk (some p) new ≡ some q)

-- The events written since `es` lead from a phase to one that fits a response.
abbrev pub Ended : Phase → List Event → Response → List Event → Type 0
Ended p es r es' = (q : Phase) × Wrote p es q es' × (fits q r ≡ true)

walk-append : (p : Option Phase) (es fs : List Event) → walk p (es ++ fs) ≡ walk (walk p es) fs
walk-append p [] fs = refl
walk-append p (e ∷ es) fs = walk-append (advance p e) es fs

pub Wrote-nothing : (p : Phase) (es : List Event) → Wrote p es p es
Wrote-nothing p es = ([], sym (append-nil es), refl)

pub Wrote-trans :
    (p q r : Phase) (es fs gs : List Event) → Wrote p es q fs → Wrote q fs r gs → Wrote p es r gs
Wrote-trans p q r es fs gs (new, more, walked) (new', more', walked') = (
  new ++ new',
  rw (more', more) (append_assoc es new new'),
  rw (walk-append (some p) new new', walked) walked',
)

pub Wrote-one :
    (p q : Phase) (es : List Event) (e : Event) → next p e ≡ some q → Wrote p es q (es ++ (e ∷ []))
Wrote-one p q es e h = (e ∷ [], refl, h)

pub Ended-after :
    (p q : Phase) (es fs gs : List Event) (r : Response)
    → Wrote p es q fs
    → Ended q fs r gs
    → Ended p es r gs
Ended-after p q es fs gs r first (last, wrote, fit) =
    (last, Wrote-trans p q last es fs gs first wrote, fit)

-- The decisions of the guardrails, and the fallbacks, change no phase.
walk-decisions_waiting :
    (who : Attribution) (rule action stage : String) (fs : List Guardrails.Finding)
    → walk (some waiting) (decisions who rule action stage fs) ≡ some waiting
walk-decisions_waiting who rule action stage [] = refl
walk-decisions_waiting who rule action stage (f ∷ fs) =
    walk-decisions_waiting who rule action stage fs

walk-decisions_running :
    (who : Attribution) (rule action stage : String) (fs : List Guardrails.Finding)
    → walk (some running) (decisions who rule action stage fs) ≡ some running
walk-decisions_running who rule action stage [] = refl
walk-decisions_running who rule action stage (f ∷ fs) =
    walk-decisions_running who rule action stage fs

walk-fallback_events :
    (who : Attribution) (es : List (String × String × String))
    → walk (some running) (fallback_events who es) ≡ some running
walk-fallback_events who [] = refl
walk-fallback_events who ((frm, to, reason) ∷ es) = walk-fallback_events who es

pub Wrote-decisions_waiting :
    (who : Attribution) (rule action stage : String) (fs : List Guardrails.Finding)
    (es : List Event)
    → Wrote waiting es waiting (es ++ decisions who rule action stage fs)
Wrote-decisions_waiting who rule action stage fs es =
    (decisions who rule action stage fs, refl, walk-decisions_waiting who rule action stage fs)

pub Wrote-decisions_running :
    (who : Attribution) (rule action stage : String) (fs : List Guardrails.Finding)
    (es : List Event)
    → Wrote running es running (es ++ decisions who rule action stage fs)
Wrote-decisions_running who rule action stage fs es =
    (decisions who rule action stage fs, refl, walk-decisions_running who rule action stage fs)

pub Wrote-fallback_events :
    (who : Attribution) (fs : List (String × String × String)) (es : List Event)
    → Wrote running es running (es ++ fallback_events who fs)
Wrote-fallback_events who fs es = (fallback_events who fs, refl, walk-fallback_events who fs)

-- A refusal that writes nothing.
pub silent : (p : Phase) (es : List Event) (r : Response) → fits p r ≡ true → Ended p es r es
silent p es r fit = (p, Wrote-nothing p es, fit)

-- A refusal that writes one event.
pub noted :
    (p q : Phase) (es : List Event) (e : Event) (r : Response)
    → next p e ≡ some q
    → fits q r ≡ true
    → Ended p es r (es ++ (e ∷ []))
noted p q es e r h fit = (q, Wrote-one p q es e h, fit)

-- A stage that only decides, and leaves the events as they are.
abbrev pub IsSilent {ℓ} : {A : Type ℓ} → Stage A → Type 0
IsSilent (go a) = Unit
IsSilent (stop r) = fits waiting r ≡ true

module _ (X : Externals) where
  -- A stage that keeps to the protocol: it goes on in the phase it began in, or the request is over.
  abbrev pub Keeps {ℓ} : {A : Type ℓ} → Phase → List Event → Stage A × Process X → Type 0
  Keeps p es (go a, g) = Wrote p es p g.events
  Keeps p es (stop r, g) = Ended p es r g.events

  Keeps-after {ℓ} :
      {A : Type ℓ} (p : Phase) (es fs : List Event) (m : Stage A × Process X)
      → Wrote p es p fs
      → Keeps p fs m
      → Keeps p es m
  Keeps-after p es fs (go a, g) wrote wrote' = Wrote-trans p p p es fs g.events wrote wrote'
  Keeps-after p es fs (stop r, g) wrote ended = Ended-after p p es fs g.events r wrote ended

  pub and_then-Keeps {ℓ κ} :
      {A : Type ℓ} {B : Type κ} (p : Phase) (es : List Event) (m : Stage A × Process X)
      (f : A → Process X → Stage B × Process X)
      → Keeps p es m
      → ((a : A) (g : Process X) → Keeps p g.events (f a g))
      → Keeps p es (and_then f m)
  and_then-Keeps p es (go a, g) f wrote rest = Keeps-after p es g.events (f a g) wrote (rest a g)
  and_then-Keeps p es (stop r, g) f ended rest = ended

  pub IsSilent-Keeps {ℓ} :
      {A : Type ℓ} (o : Stage A) (g : Process X) → IsSilent o → Keeps waiting g.events (o, g)
  IsSilent-Keeps (go a) g h = Wrote-nothing waiting g.events
  IsSilent-Keeps (stop r) g h = silent waiting g.events r h

  -- The events of the last stage lead to a phase that fits its response.
  abbrev pub Ends : Phase → List Event → Stage Response × Process X → Type 0
  Ends p es (go r, g) = Ended p es r g.events
  Ends p es (stop r, g) = Ended p es r g.events

  pub Ends-after :
      (p q : Phase) (es fs : List Event) (m : Stage Response × Process X)
      → Wrote p es q fs
      → Ends q fs m
      → Ends p es m
  Ends-after p q es fs (go r, g) wrote ended = Ended-after p q es fs g.events r wrote ended
  Ends-after p q es fs (stop r, g) wrote ended = Ended-after p q es fs g.events r wrote ended

  pub and_then-Ends {ℓ} :
      {A : Type ℓ} (p : Phase) (es : List Event) (m : Stage A × Process X)
      (f : A → Process X → Stage Response × Process X)
      → Keeps p es m
      → ((a : A) (g : Process X) → Ends p g.events (f a g))
      → Ends p es (and_then f m)
  and_then-Ends p es (go a, g) f wrote rest = Ends-after p p es g.events (f a g) wrote (rest a g)
  and_then-Ends p es (stop r, g) f ended rest = ended

  pub Ends-Ended :
      (p : Phase) (es : List Event) (m : Stage Response × Process X)
      → Ends p es m
      → Ended p es (response m).0 (response m).1.events
  Ends-Ended p es (go r, g) ended = ended
  Ends-Ended p es (stop r, g) ended = ended
