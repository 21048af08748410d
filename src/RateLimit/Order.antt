-- ===== src/RateLimit/Order.antt =====
-- The order in which `check_multi_scope` charges the scopes, against a plan: the list of the
-- dimensions that a request is charged for, taken one after another until the first refusal.
use agnos_proxy_oss.Base.{
  truthy, ℕ, zero, suc, max, String, ◌<>◌, ◌≡◌, refl, Option, none, some, List, [], ◌∷◌, ◌++◌,
  arith, if◌then◌else◌, Option-cases, inl, inr, ap, sym, ◌∙◌,
}
use mathlib.Core.List.{append-nil}
use agnos_proxy_oss.RateLimit.{
  Limiter, Limits, Kind, rpm_kind, tpm_kind, Scope, user_scope, workspace_scope, client_scope,
  model_scope, Verdict, allowed, refused, Request, user_limits, draw, check_rpm, check_tpm,
  check_scope, under, check_model, check_client, check_workspace, check_multi_scope,
}

pub record Dimension : Type 0 where
  pub scope : Scope
  pub kind : Kind
  pub key : String
  pub limit : ℕ
  pub need : ℕ

rpm_part : Scope → String → Option ℕ → List Dimension
rpm_part s key none = []
rpm_part s key (some zero) = []
rpm_part s key (some (suc m)) =
    record { scope = s; kind = rpm_kind; key = key; limit = suc m; need = 1 } ∷ []

tpm_part : Scope → String → ℕ → Option ℕ → List Dimension
tpm_part s key est none = []
tpm_part s key est (some zero) = []
tpm_part s key est (some (suc m)) =
    record { scope = s; kind = tpm_kind; key = key; limit = suc m; need = max 1 est } ∷ []

scope_part : Scope → String → Limits → ℕ → List Dimension
scope_part s key q est = rpm_part s key q.rpm ++ tpm_part s key est q.tpm

user_part : Request → List Dimension
user_part q = elim q.user_id [
  | none ↦ []
  | some u ↦ elim q.workspace_rl [
    | none ↦ []
    | some w ↦
        if truthy (some u)
        then scope_part user_scope ("user:" <> q.workspace_id <> ":" <> u) (user_limits w)
            q.est_tokens
        else []
  ]
]

workspace_part : Request → List Dimension
workspace_part q = elim q.workspace_rl [
  | none ↦ []
  | some w ↦ scope_part workspace_scope ("workspace:" <> q.workspace_id) w.limits q.est_tokens
]

client_part : Request → List Dimension
client_part q = elim q.client_id [
  | none ↦ []
  | some c ↦ elim q.client_rl [
    | none ↦ []
    | some m ↦
        if truthy (some c) then scope_part client_scope ("client:" <> c) m q.est_tokens else []
  ]
]

model_part : Request → List Dimension
model_part q = elim q.model_quota [
  | none ↦ []
  | some m ↦ scope_part model_scope ("model:" <> q.workspace_id <> ":" <> q.alias) m q.est_tokens
]

-- User, workspace, client, model; in each the requests before the tokens. A dimension without a
-- limit is not there.
pub plan : Request → List Dimension
unfolding user_part workspace_part client_part model_part scope_part rpm_part tpm_part
plan q = user_part q ++ (workspace_part q ++ (client_part q ++ model_part q))

pub charge : Dimension → ℕ → Limiter → Option ℕ × Limiter
charge d now l = elim d.kind [
  | rpm_kind ↦ let (r, store) = draw l.rpm d.key d.limit now d.need in (r, record l { rpm = store })
  | tpm_kind ↦ let (r, store) = draw l.tpm d.key d.limit now d.need in (r, record l { tpm = store })
]

pub charge_all : List Dimension → ℕ → Limiter → Verdict × Limiter
charge_all [] now l = (allowed, l)
charge_all (d ∷ ds) now l =
    let (r, l') = charge d now l in
    elim r [ none ↦ charge_all ds now l' | some retry ↦ (refused d.scope d.kind retry, l') ]

module _ (now : ℕ) (ds : List Dimension) (rest : Limiter → Verdict × Limiter)
    (h : (l : Limiter) → rest l ≡ charge_all ds now l) where
  under_options :
      (s : Scope) (key : String) (r t : Option ℕ) (est : ℕ) (l : Limiter)
      → under s key (record { rpm = r; tpm = t }) now est rest l
        ≡ charge_all (scope_part s key (record { rpm = r; tpm = t }) est ++ ds) now l
  unfolding check_scope check_rpm check_tpm scope_part rpm_part tpm_part charge charge_all
  under_options s key none none est l = h l
  under_options s key none (some zero) est l = h l
  under_options s key none (some (suc t)) est l =
      ground (arith, h (record l { tpm = (draw l.tpm key (suc t) now (max 1 est)).1 }))
  under_options s key (some zero) none est l = h l
  under_options s key (some zero) (some zero) est l = h l
  under_options s key (some zero) (some (suc t)) est l =
      ground (arith, h (record l { tpm = (draw l.tpm key (suc t) now (max 1 est)).1 }))
  under_options s key (some (suc r)) none est l =
      ground (arith, h (record l { rpm = (draw l.rpm key (suc r) now 1).1 }))
  under_options s key (some (suc r)) (some zero) est l =
      ground (arith, h (record l { rpm = (draw l.rpm key (suc r) now 1).1 }))
  under_options s key (some (suc r)) (some (suc t)) est l = ground (
    arith,
    h (record l {
      rpm = (draw l.rpm key (suc r) now 1).1;
      tpm = (draw l.tpm key (suc t) now (max 1 est)).1;
    }),
  )

  under-charge_all :
      (s : Scope) (key : String) (q : Limits) (est : ℕ) (l : Limiter)
      → under s key q now est rest l ≡ charge_all (scope_part s key q est ++ ds) now l
  under-charge_all s key q est l = under_options s key q.rpm q.tpm est l

check_model-charge_all :
    (q : Request) (now : ℕ) (l : Limiter) → check_model q now l ≡ charge_all (model_part q) now l
unfolding check_model model_part charge_all
check_model-charge_all q now l = elim (Option-cases q.model_quota) [
  | inl e ↦ ground arith
  | inr (m, e) ↦
      let key = "model:" <> q.workspace_id <> ":" <> q.alias in
      ground (
        arith,
        under-charge_all now [] (λ l'. (allowed, l')) (λ l'. refl) model_scope key m q.est_tokens l,
        append-nil (scope_part model_scope key m q.est_tokens),
      )
]

check_client-charge_all :
    (q : Request) (now : ℕ) (l : Limiter)
    → check_client q now l ≡ charge_all (client_part q ++ model_part q) now l
unfolding check_client client_part
check_client-charge_all q now l = elim (Option-cases q.client_id) [
  | inl e ↦ ground (arith, check_model-charge_all q now l)
  | inr (c, e) ↦ elim (Option-cases q.client_rl) [
    | inl e' ↦ ground (arith, check_model-charge_all q now l)
    | inr (m, e') ↦ ground (
      arith,
      check_model-charge_all q now l,
      under-charge_all now (model_part q) (check_model q now) (check_model-charge_all q now)
          client_scope ("client:" <> c) m q.est_tokens l,
    )
  ]
]

check_workspace-charge_all :
    (q : Request) (now : ℕ) (l : Limiter)
    → check_workspace q now l
      ≡ charge_all (workspace_part q ++ (client_part q ++ model_part q)) now l
unfolding check_workspace workspace_part
check_workspace-charge_all q now l = elim (Option-cases q.workspace_rl) [
  | inl e ↦ ground (arith, check_client-charge_all q now l)
  | inr (w, e) ↦ ground (
    arith,
    under-charge_all now (client_part q ++ model_part q) (check_client q now)
        (check_client-charge_all q now) workspace_scope ("workspace:" <> q.workspace_id) w.limits
        q.est_tokens l,
  )
]

-- The nested early returns are the plan, charged in its order up to the first refusal.
pub check_multi_scope-eq-charge_all :
    (q : Request) (now : ℕ) (l : Limiter) → check_multi_scope q now l ≡ charge_all (plan q) now l
unfolding check_multi_scope plan user_part
check_multi_scope-eq-charge_all q now l = elim (Option-cases q.user_id) [
  | inl e ↦ ground (arith, check_workspace-charge_all q now l)
  | inr (u, e) ↦ elim (Option-cases q.workspace_rl) [
    | inl e' ↦ ground (arith, check_workspace-charge_all q now l)
    | inr (w, e') ↦ ground (
      arith,
      check_workspace-charge_all q now l,
      under-charge_all now (workspace_part q ++ (client_part q ++ model_part q))
          (check_workspace q now) (check_workspace-charge_all q now) user_scope
          ("user:" <> q.workspace_id <> ":" <> u) (user_limits w) q.est_tokens l,
    )
  ]
]

charge_all-refused :
    (ds : List Dimension) (now : ℕ) (l l' : Limiter) (s : Scope) (k : Kind) (retry : ℕ)
    → charge_all ds now l ≡ (refused s k retry, l')
    → (before : List Dimension) × (d : Dimension) × (after : List Dimension) × (mid : Limiter) × (ds
        ≡ before ++ (d ∷ after))
      × (d.scope ≡ s)
      × (d.kind ≡ k)
      × (charge_all before now l ≡ (allowed, mid))
      × (charge d now mid ≡ (some retry, l'))
unfolding charge_all
charge_all-refused [] now l l' s k retry h = absurd (ground arith)
charge_all-refused (d ∷ ds) now l l' s k retry h = elim (Option-cases (charge d now l).0) [
  | inl e ↦
      let (before, d', after, mid, split, is_scope, is_kind, passed, last) =
        charge_all-refused ds now (charge d now l).1 l' s k retry (ground arith) in
      (d ∷ before, d', after, mid, ap (◌∷◌ d) split, is_scope, is_kind, ground arith, last)
  | inr (t, e) ↦ ([], d, ds, l, refl, ground arith, ground arith, refl, ground arith)
]

-- A refusal names the first dimension of the plan that is over its limit: all before it were
-- granted and stay charged, and the store is the one that its own charge leaves, so no dimension
-- after it is touched.
pub check_multi_scope-refused :
    (q : Request) (now : ℕ) (l l' : Limiter) (s : Scope) (k : Kind) (retry : ℕ)
    → check_multi_scope q now l ≡ (refused s k retry, l')
    → (before : List Dimension) × (d : Dimension) × (after : List Dimension) × (mid : Limiter)
      × (plan q ≡ before ++ (d ∷ after))
      × (d.scope ≡ s)
      × (d.kind ≡ k)
      × (charge_all before now l ≡ (allowed, mid))
      × (charge d now mid ≡ (some retry, l'))
check_multi_scope-refused q now l l' s k retry h =
    charge_all-refused (plan q) now l l' s k retry
      (sym (check_multi_scope-eq-charge_all q now l) ∙ h)
