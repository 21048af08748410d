-- ===== src/Fallback/Rounds.antt =====
-- What the rounds on one target leave behind, and what a log of a run looks like.
use agnos_proxy_oss.Base.{
  ℕ, zero, suc, ◌+◌, ◌*◌, ◌-◌, ◌<◌, ◌≤◌, ◌≡◌, refl, ap, String, Bool, true, false, none, some, List,
  [], ◌∷◌, ◌++◌, arith, length, length-append, ◌∙◌, Bool-cases, inl, inr, ⊤, ◌&&◌, leb, All,
}
use mathlib.Core.List.{append_assoc}
use agnos_proxy_oss.Registry.{ResolvedTarget, Settings}
use agnos_proxy_oss.Fallback.{
  Attempt, Ending, EngineResult, Run, Served, World, crashed, error_message, error_type, exhausted,
  failed, is_hashable, is_ok, is_retryable, is_sliceable, served, skipped,
}
use agnos_proxy_oss.Fallback.Execute.{after_failure, attempt_loop, caught}

-- The last error that a run remembers is an error.
abbrev pub LastFailed : {S : Type 0} → Run S → Type 0
LastFailed r = elim r.last [ none ↦ ⊤ | some e ↦ is_ok e ≡ false ]

-- An entry of the log is about a provider and its model.
abbrev pub IsOf : String → String → Attempt → Type 0
IsOf provider model (skipped p m) = (p ≡ provider) × (m ≡ model)
IsOf provider model (failed p m n status type_ message ms) = (p ≡ provider) × (m ≡ model)

-- The entries of one target: one at least, and one at most for each round.
abbrev pub IsOwn : ℕ → ResolvedTarget → List Attempt → Type 0
IsOwn rounds t own = (1 ≤ length own) × (length own ≤ rounds) × All (IsOf t.provider t.model_id) own

-- A log of a run over targets: the entries of the first, then those of the second, and so on.
abbrev pub Logged : ℕ → List ResolvedTarget → List Attempt → Type 0
Logged rounds [] log = log ≡ []
Logged rounds (t ∷ ts) log =
    (own : List Attempt) × (rest : List Attempt) × (log ≡ own ++ rest)
    × IsOwn rounds t own
    × Logged rounds ts rest

pub length-Logged :
    (rounds : ℕ) (ts : List ResolvedTarget) (log : List Attempt)
    → Logged rounds ts log
    → length log ≤ length ts * rounds
length-Logged rounds [] log h = rw h (omega arith)
length-Logged rounds (t ∷ ts) log (own, rest, eq, (one, most, about), later) =
    let more = length-Logged rounds ts rest later in rw eq (grind (arith, length-append own rest))

-- An error that the logging of a failed call can take.
abbrev pub is_recordable : EngineResult → Bool
is_recordable r = is_sliceable (error_message r) && is_hashable (error_type r)

module _ (W : World) (settings : Settings) (workspace_id : String) (max_retries : ℕ) where
  -- The engine has answered some call with an error that the logging cannot take.
  abbrev pub Unrecordable : Type 0
  Unrecordable =
      (t : ResolvedTarget) × (eff_to : ℕ) × (w : W.State) × (is_ok
          (caught W settings workspace_id max_retries eff_to (W.chat t eff_to w).0)
        ≡ false)
      × (is_recordable (caught W settings workspace_id max_retries eff_to (W.chat t eff_to w).0)
          ≡ false)

  -- What the rounds on one target leave behind.
  abbrev pub Ends : ℕ → ℕ → ResolvedTarget → Run W.State → Ending Served × Run W.State → Type 0
  Ends left attempt t r (exhausted, r') =
      LastFailed r' × ((own : List Attempt) × (r'.attempts ≡ r.attempts ++ own) × IsOwn left t own)
  Ends left attempt t r (crashed, r') = Unrecordable
  Ends left attempt t r (served (result, n, ms), r') =
      (is_ok result ≡ true)
      × (attempt < n)
      × (n ≤ attempt + left)
      × (length r'.attempts ≤ length r.attempts + left)

  abbrev pub rounds : ℕ → ℕ → ResolvedTarget → Run W.State → Ending Served × Run W.State
  rounds = attempt_loop W settings workspace_id max_retries

  -- What the rounds after a failed one leave is what that round and they leave.
  Ends-later :
      (left attempt : ℕ) (t : ResolvedTarget) (x : Attempt) (r r' : Run W.State)
      (p : Ending Served × Run W.State)
      → r'.attempts ≡ r.attempts ++ (x ∷ [])
      → IsOf t.provider t.model_id x
      → Ends left (attempt + 1) t r' p
      → Ends (suc left) attempt t r p
  Ends-later left attempt t x r r' (exhausted, s) more about (h, (own, eq, (low, high, all))) = (
    h,
    (
      x ∷ own,
      rw (eq, more) (append_assoc r.attempts (x ∷ []) own),
      (omega arith, omega arith, (about, all)),
    ),
  )
  Ends-later left attempt t x r r' (crashed, s) more about h = h
  Ends-later left attempt t x r r' (served (result, n, ms), s) more about (good, low, high, size) =
      let size' : length r'.attempts ≡ length r.attempts + 1 =
        ap length more ∙ length-append r.attempts (x ∷ []) in
      (good, omega arith, omega arith, omega arith)

  -- The result of the next round, and the run after it failed.
  abbrev result_of : ResolvedTarget → Run W.State → EngineResult
  result_of t r = caught W settings workspace_id max_retries r.eff_to (W.chat t r.eff_to r.world).0

  abbrev failed_run : ℕ → ResolvedTarget → Run W.State → Run W.State
  failed_run attempt t r =
      let w = (W.chat t r.eff_to r.world).1 in
      after_failure W settings workspace_id max_retries t (attempt + 1) (result_of t r)
        (W.now w - W.now r.world) w r

  abbrev paused : ℕ → ResolvedTarget → Run W.State → Run W.State
  paused attempt t r = record (failed_run attempt t r) {
    world = W.pause (attempt + 1) (W.chat t r.eff_to r.world).1;
  }

  abbrev entry : ℕ → ResolvedTarget → Run W.State → Attempt
  entry attempt t r =
      failed t.provider t.model_id (attempt + 1) (result_of t r).status_code
        (error_type (result_of t r)) (error_message (result_of t r))
        (W.now (W.chat t r.eff_to r.world).1 - W.now r.world)

  round-Ends :
      (left attempt : ℕ) (t : ResolvedTarget) (r : Run W.State)
      → (is_ok (result_of t r) ≡ false
          → Ends (suc left) attempt t r (rounds left (attempt + 1) t (paused attempt t r)))
      → Ends (suc left) attempt t r (rounds (suc left) attempt t r)
  unfolding attempt_loop
  round-Ends left attempt t r later =
      let result = result_of t r in
      elim (Bool-cases (is_ok result)) [
        | inl good ↦ rw good (good, omega arith, omega arith, omega arith)
        | inr bad ↦ elim (Bool-cases (is_sliceable (error_message result))) [
          | inr uncut ↦ rw (bad, uncut) (t, r.eff_to, r.world, bad, rw uncut refl)
          | inl cut ↦ elim (Bool-cases (is_hashable (error_type result))) [
            | inr odd ↦ rw (bad, cut, odd) (t, r.eff_to, r.world, bad, rw (cut, odd) refl)
            | inl even ↦ elim (Bool-cases (is_retryable result && leb (attempt + 1) max_retries)) [
              | inl again ↦ rw (bad, cut, even, again) (later bad)
              | inr stop ↦
                  rw (bad, cut, even, stop)
                    (
                      bad,
                      (
                        entry attempt t r ∷ [],
                        refl,
                        (omega arith, omega arith, ((refl, refl), tt)),
                      ),
                    )
            ]
          ]
        ]
      ]

  pub attempt_loop-Ends :
      (left attempt : ℕ) (t : ResolvedTarget) (r : Run W.State)
      → Ends (suc left) attempt t r (rounds (suc left) attempt t r)
  unfolding attempt_loop
  attempt_loop-Ends zero attempt t r =
      round-Ends zero attempt t r (λ bad.
        (bad, (entry attempt t r ∷ [], refl, (omega arith, omega arith, ((refl, refl), tt)))))
  attempt_loop-Ends (suc left) attempt t r = round-Ends (suc left) attempt t r (λ bad.
      Ends-later (suc left) attempt t (entry attempt t r) r (paused attempt t r) _ refl (refl, refl)
        (attempt_loop-Ends left (attempt + 1) t (paused attempt t r)))
