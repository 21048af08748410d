-- ===== src/Fallback/Served.antt =====
-- How a run over the targets ends, and how many calls it makes.
use agnos_proxy_oss.Base.{
  ℕ, suc, ◌+◌, ◌*◌, ◌<◌, ◌≤◌, ◌≡◌, refl, ap, sym, String, Bool, true, false, Option, none, some,
  List, [], ◌∷◌, ◌++◌, arith, length, length-append, ◌∙◌, Option-cases, Bool-cases, inl, inr, ◌⊎◌,
  All,
}
use mathlib.Core.List.{append-nil, append_assoc}
use mathlib.Core.Path.{subst}
use agnos_proxy_oss.Registry.{ResolvedTarget, Settings, hydrate_from_config}
use agnos_proxy_oss.Breaker.{CircuitBreaker, is_open}
use agnos_proxy_oss.Fallback.{
  Attempt, Credential, Ending, FallbackResult, Run, Served, World, crashed, exhausted, is_ok,
  served, skipped,
}
use agnos_proxy_oss.Fallback.Rounds.{
  LastFailed, IsOf, IsOwn, Logged, length-Logged, Unrecordable, Ends, attempt_loop-Ends,
}
use agnos_proxy_oss.Fallback.Execute.{
  execute, finish, gave_up, last_or, prepare, skip, start, target_loop, with_credential,
}

-- What a run over targets leaves behind: if none served, the entries of each, the last error and the
-- last target.
abbrev pub LastTried : {S : Type 0} → List ResolvedTarget → Run S → Run S → Type 0
LastTried [] r r' = r'.tried ≡ r.tried
LastTried (t ∷ ts) r r' = (u : ResolvedTarget) × (r'.tried ≡ some u)

pub LastTried-cons :
    {S : Type 0} (t u : ResolvedTarget) (ts : List ResolvedTarget) (r r' r'' : Run S)
    → r'.tried ≡ some u
    → LastTried ts r' r''
    → LastTried (t ∷ ts) r r''
LastTried-cons t u [] r r' r'' e h = (u, h ∙ e)
LastTried-cons t u (x ∷ xs) r r' r'' e h = h

-- A credential changes neither the provider nor the model of a target.
with_credential-same :
    (W : World) (settings : Settings) (workspace_id : String) (max_retries : ℕ)
    (cred : Option Credential) (t : ResolvedTarget)
    → let t' = with_credential W settings workspace_id max_retries cred t in
      (t'.provider ≡ t.provider) × (t'.model_id ≡ t.model_id)
unfolding hydrate_from_config
with_credential-same W settings workspace_id max_retries none t = (refl, refl)
with_credential-same W settings workspace_id max_retries (some c) t = (refl, refl)

IsOwn-same :
    (rounds : ℕ) (t u : ResolvedTarget) (own : List Attempt)
    → (t.provider ≡ u.provider) × (t.model_id ≡ u.model_id)
    → IsOwn rounds t own
    → IsOwn rounds u own
IsOwn-same rounds t u own (p, m) (low, high, all) = (
  low,
  high,
  subst (λ n. All (IsOf u.provider n) own) m (subst (λ q. All (IsOf q t.model_id) own) p all),
)

module _ (W : World) (settings : Settings) (workspace_id : String) (max_retries : ℕ) where
  abbrev Finishes :
      List ResolvedTarget → Run W.State → Ending (Served × ResolvedTarget) × Run W.State → Type 0
  Finishes ts r (exhausted, r') =
      LastFailed r'
      × LastTried ts r r'
      × ((log : List Attempt) × (r'.attempts ≡ r.attempts ++ log) × Logged (suc max_retries) ts log)
  Finishes ts r (crashed, r') = Unrecordable W settings workspace_id max_retries
  Finishes ts r (served ((result, n, ms), t), r') =
      (is_ok result ≡ true)
      × (0 < n)
      × (n ≤ suc max_retries)
      × (length r'.attempts ≤ length r.attempts + length ts * suc max_retries)

  Finishes-later :
      (t u : ResolvedTarget) (ts : List ResolvedTarget) (own : List Attempt) (r r' : Run W.State)
      (p : Ending (Served × ResolvedTarget) × Run W.State)
      → r'.tried ≡ some u
      → r'.attempts ≡ r.attempts ++ own
      → IsOwn (suc max_retries) t own
      → Finishes ts r' p
      → Finishes (t ∷ ts) r p
  Finishes-later t u ts own r r' (exhausted, s) e more mine (h, tried, (log, eq, logged)) = (
    h,
    LastTried-cons t u ts r r' s e tried,
    (own ++ log, rw (eq, more) (append_assoc r.attempts own log), (own, log, refl, mine, logged)),
  )
  Finishes-later t u ts own r r' (crashed, s) e more mine h = h
  Finishes-later t u ts own r r' (served ((result, n, ms), t'), s) e more (low, high, all)
        (good, one, within, size) =
      let size' : length r'.attempts ≡ length r.attempts + length own =
        ap length more ∙ length-append r.attempts own in
      (good, one, within, grind arith)

  -- The rounds on a target, and the run over those after it.
  tried-Finishes :
      (t t' : ResolvedTarget) (ts : List ResolvedTarget) (r r₂ : Run W.State)
      (p : Ending Served × Run W.State)
      (next : Run W.State → Ending (Served × ResolvedTarget) × Run W.State)
      → r₂.attempts ≡ r.attempts
      → (t'.provider ≡ t.provider) × (t'.model_id ≡ t.model_id)
      → Ends W settings workspace_id max_retries (suc max_retries) 0 t' r₂ p
      → ((r₃ : Run W.State) → LastFailed r₃ → Finishes ts r₃ (next r₃))
      → Finishes (t ∷ ts) r (elim p.0 [
        | served s ↦ (served (s, t'), p.1)
        | exhausted ↦ next (record p.1 { prev_provider = some t'.provider; tried = some t' })
        | crashed ↦ (crashed, p.1)
      ])
  tried-Finishes t t' ts r r₂ (served (result, n, ms), s) next kept same (good, low, high, size)
        rest =
      let size' : length r₂.attempts ≡ length r.attempts = ap length kept in
      (good, omega arith, omega arith, grind arith)
  tried-Finishes t t' ts r r₂ (crashed, s) next kept same h rest = h
  tried-Finishes t t' ts r r₂ (exhausted, s) next kept same (h, (own, eq, mine)) rest =
      let s' : Run W.State = record s { prev_provider = some t'.provider; tried = some t' } in
      Finishes-later t t' ts own r s' (next s') refl (eq ∙ ap (λ l. l ++ own) kept)
        (IsOwn-same (suc max_retries) t' t own same mine) (rest s' h)

  target_loop-Finishes :
      (first : Bool) (timeout : Option ℕ) (ts : List ResolvedTarget) (r : Run W.State)
      → LastFailed r
      → Finishes ts r (target_loop W settings workspace_id max_retries first timeout ts r)
  unfolding target_loop
  target_loop-Finishes first timeout [] r h = (h, refl, ([], sym (append-nil r.attempts), refl))
  target_loop-Finishes first timeout (t ∷ ts) r h =
      let (open_now, c) = is_open workspace_id t.provider (W.now r.world) r.breaker in
      let r₁ = skip W settings workspace_id max_retries t c r in
      let (t', r₂) = prepare W settings workspace_id max_retries first timeout t c r in
      let ends = attempt_loop-Ends W settings workspace_id max_retries max_retries 0 t' r₂ in
      elim (Bool-cases open_now) [
        | inl is_skipped ↦
            let mine : IsOwn (suc max_retries) t (skipped t.provider t.model_id ∷ []) =
              (omega arith, omega arith, ((refl, refl), tt)) in
            rw is_skipped (
              Finishes-later t t ts (skipped t.provider t.model_id ∷ []) r r₁ _ refl refl mine
                (target_loop-Finishes false timeout ts r₁ h))
        | inr tried ↦ rw tried (
            tried-Finishes t t' ts r r₂ _
              (target_loop W settings workspace_id max_retries false timeout ts) refl
              (with_credential-same W settings workspace_id max_retries _ t) ends
              (target_loop-Finishes false timeout ts))
      ]

  -- How a caller sees the end of a run.
  abbrev pub Reported : List ResolvedTarget → FallbackResult → Type 0
  Reported ts f =
      (length f.attempts ≤ length ts * suc max_retries)
      × (((is_ok f.result ≡ true) × (0 < f.attempt) × (f.attempt ≤ suc max_retries))
          ⊎ ((is_ok f.result ≡ false) × Logged (suc max_retries) ts f.attempts))

  last_or_failed :
      (r : Run W.State)
      → LastFailed r
      → is_ok (last_or W settings workspace_id max_retries r.last) ≡ false
  unfolding is_ok
  last_or_failed r h = elim (Option-cases r.last) [
    | inl e ↦ rw e refl
    | inr (x, e) ↦ rw e (rw e at h)
  ]

  -- The end of a run over one target or more: a result, or an exception.
  abbrev pub Returns : List ResolvedTarget → Option FallbackResult → Type 0
  Returns ts answer =
      ((f : FallbackResult) × (answer ≡ some f) × Reported ts f)
      ⊎ ((answer ≡ none) × Unrecordable W settings workspace_id max_retries)

  finish-Returns :
      (t : ResolvedTarget) (ts : List ResolvedTarget) (r : Run W.State)
      (p : Ending (Served × ResolvedTarget) × Run W.State)
      → r.attempts ≡ []
      → Finishes (t ∷ ts) r p
      → Returns (t ∷ ts) (finish W settings workspace_id max_retries p.0 p.1)
  finish-Returns t ts r (crashed, r') e h = inr (refl, h)
  finish-Returns t ts r (exhausted, r') e (h, (u, tried), (log, eq, logged)) =
      let all : r'.attempts ≡ log = eq ∙ ap (λ l. l ++ log) e in
      let logged' : Logged (suc max_retries) (t ∷ ts) r'.attempts =
        subst (Logged (suc max_retries) (t ∷ ts)) (sym all) logged in
      inl (
        record {
          result = last_or W settings workspace_id max_retries r'.last;
          target = u;
          attempt = 1;
          provider_time = 0;
          fallbacks_emitted = r'.fb_events;
          attempts = r'.attempts;
          effective_timeout_s = r'.eff_to;
        },
        rw (tried, gave_up) refl,
        (
          length-Logged (suc max_retries) (t ∷ ts) r'.attempts logged',
          inr (last_or_failed r' h, logged'),
        ),
      )
  finish-Returns t ts r (served ((result, n, ms), u), r') e (good, one, within, size) =
      let empty : length r.attempts ≡ 0 = ap length e in
      let size' : length r'.attempts ≤ length (t ∷ ts) * suc max_retries = omega arith in
      inl (
        record {
          result = result;
          target = u;
          attempt = n;
          provider_time = ms;
          fallbacks_emitted = r'.fb_events;
          attempts = r'.attempts;
          effective_timeout_s = r'.eff_to;
        },
        refl,
        (size', inl (good, one, within)),
      )

  -- A run over one target or more ends in one of three ways. It returns a success, within the allowed
  -- rounds on one target. It returns a failure, and then its log is made of the entries of each
  -- target in their order: for every target one or more, which name its provider and its model, and
  -- no more than the allowed rounds. Or an exception leaves it, which only happens with an engine
  -- that answers some call with an error whose message is neither a text nor a list, or whose type is
  -- a list or an object. A log never has more entries than the allowed rounds on all targets.
  pub execute-Reported :
      (timeout : Option ℕ) (t : ResolvedTarget) (ts : List ResolvedTarget) (c : CircuitBreaker)
      (w : W.State)
      → Returns (t ∷ ts) (execute W settings workspace_id max_retries timeout (t ∷ ts) c w).0
  unfolding execute
  execute-Reported timeout t ts c w =
      let r = start W settings workspace_id max_retries timeout c w in
      finish-Returns t ts r _ refl (target_loop-Finishes true timeout (t ∷ ts) r tt)
