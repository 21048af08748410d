-- ===== src/Auth/Admin.antt =====
-- gateway/core/security.py: the session cookie and `require_admin`. The signature of the first two
-- parts of a cookie, and the base64 and JSON libraries that read the second, are the parameter
-- `Cookies`; a session has the claims that `issue_session` writes.
use agnos_proxy_oss.Base.{
  ℕ, ◌≤◌, ◌≡◌, refl, String, Bool, true, false, Option, none, some, List, [], ◌∷◌, ◌++◌, arith, ltb,
  eqb, if◌then◌else◌, ◌==◌, ◌&&◌, not, nat_eq, list_eq, string_eq, contains, is_empty, Bool-cases,
  Option-cases, inl, inr, ==_iff, ap, sym,
}
use agnos_proxy_oss.Base.Text.{Text}
use agnos_proxy_oss.Auth.{Library, Result, Store, Tables, err, ok, resolve_workspace}

-- The claims of a session cookie: `sub`, `roles` and `exp`, which is 0 if it is missing.
pub record Session : Type 0 where
  pub sub : String
  pub roles : List String
  pub exp : ℕ

pub record Cookies : Type 0 where
  -- The signature of the first two parts under the session secret.
  pub sign : Text → Text → Text
  -- The claims of the second part.
  pub claims : Text → Option Session

-- `s.split(".")`: at least one part.
unfoldable pub parts : Text → Text → List Text
parts part [] = part ∷ []
parts part (c ∷ s) =
    let next = parts [] s in
    let longer = parts (part ++ (c ∷ [])) s in if eqb c b'.' then part ∷ next else longer

-- The claims, unless they are missing or have expired.
abbrev pub unexpired : ℕ → Option Session → Option Session
unexpired now none = none
unexpired now (some s) = if ltb s.exp now then none else some s

-- `verify_session` once the token is split; three parts or an exception.
abbrev pub verify_parts : Cookies → ℕ → List Text → Option Session
verify_parts k now (header ∷ payload ∷ signature ∷ []) =
    if k.sign header payload == signature then unexpired now (k.claims payload) else none
verify_parts k now _ = none

unfoldable pub verify_session : Cookies → ℕ → Text → Option Session
unfolding parts
verify_session k now token = verify_parts k now (parts [] token)

pub record Request : Type 0 where
  pub admin_token : Option Text
  pub cookie : Option Text
  pub authorization : Option Text

-- Who was let in: the principal and the roles.
pub data Principal : Type 0 where
  platform_admin : Principal
  session : String → List String → Principal
  workspace : String → List String → Principal

abbrev pub given : Option Text → Bool
given none = false
given (some s) = not (is_empty s)

abbrev pub by_token : Text → Option Text → Bool
by_token secret none = false
by_token secret (some token) = not (is_empty token) && (token == secret)

abbrev pub by_session : Option Session → Option Principal
by_session none = none
by_session (some s) = if contains s.roles "admin" then some (session s.sub s.roles) else none

abbrev pub by_cookie : Cookies → ℕ → Option Text → Option Principal
by_cookie k now none = none
by_cookie k now (some []) = none
by_cookie k now (some (c ∷ s)) = by_session (verify_session k now (c ∷ s))

abbrev pub by_context : Result ℕ × Store → Option Principal × Store
by_context (err e, st) = (none, st)
by_context (ok a, st) =
    let c = st.heap a in
    (if contains c.roles "admin" then some (workspace c.workspace_id c.roles) else none, st)

abbrev pub by_key : Library → Option Text → ℕ → Option Tables → Store → Option Principal × Store
by_key lib authorization now db st =
    if given authorization
    then by_context (resolve_workspace lib authorization now db st)
    else (none, st)

-- `require_admin`; `none` is the 403.
unfoldable pub require_admin :
    Cookies → Library → Text → Request → ℕ → Option Tables → Store → Option Principal × Store
unfolding verify_session resolve_workspace
require_admin k lib secret r now db st =
    if by_token secret r.admin_token
    then (some platform_admin, st)
    else elim (by_cookie k now r.cookie) [
      | some p ↦ (some p, st)
      | none ↦ by_key lib r.authorization now db st
    ]

-- `is_admin_request`
abbrev pub is_admin_request :
    Cookies → Library → Text → Request → ℕ → Option Tables → Store → Bool × Store
is_admin_request k lib secret r now db st =
    let (p, st') = require_admin k lib secret r now db st in
    (elim p [ none ↦ false | some q ↦ true ], st')

unexpired-some :
    (now : ℕ) (o : Option Session) (s : Session)
    → unexpired now o ≡ some s
    → (o ≡ some s) × (now ≤ s.exp)
unexpired-some now none s h = ground arith
unexpired-some now (some t) s h = (ground arith, ground arith)

-- The two parts that were signed, and the session that the second holds.
abbrev pub Signed : Cookies → ℕ → List Text → Session → Type 0
Signed k now ps s =
    (header : Text) × (payload : Text) × (ps ≡ header ∷ payload ∷ k.sign header payload ∷ [])
    × (k.claims payload ≡ some s)
    × (now ≤ s.exp)

verify_parts-Signed :
    (k : Cookies) (now : ℕ) (ps : List Text) (s : Session)
    → verify_parts k now ps ≡ some s
    → Signed k now ps s
verify_parts-Signed k now [] s h = ground arith
verify_parts-Signed k now (a ∷ []) s h = ground arith
verify_parts-Signed k now (a ∷ b ∷ []) s h = ground arith
verify_parts-Signed k now (a ∷ b ∷ c ∷ d ∷ ps) s h = ground arith
verify_parts-Signed k now (a ∷ b ∷ c ∷ []) s h = elim (Bool-cases (k.sign a b == c)) [
  | inr forged ↦ ground (arith, rw forged at h)
  | inl signed ↦
      let (found, live) = unexpired-some now (k.claims b) s (rw signed at h) in
      (a, b, ap (λ x. a ∷ b ∷ x ∷ []) (sym ((==_iff (k.sign a b) c).0 signed)), found, live)
]

-- A cookie is taken for a session only with three parts of which the third is the signature of the
-- first two, and only up to the time when the session expires.
pub verify_session-Signed :
    (k : Cookies) (now : ℕ) (token : Text) (s : Session)
    → verify_session k now token ≡ some s
    → Signed k now (parts [] token) s
unfolding verify_session
verify_session-Signed k now token s h = verify_parts-Signed k now (parts [] token) s h

by_token-some :
    (secret : Text) (o : Option Text)
    → by_token secret o ≡ true
    → (o ≡ some secret) × (is_empty secret ≡ false)
by_token-some secret none h = ground arith
by_token-some secret (some []) h = ground arith
by_token-some secret (some (c ∷ s)) h =
    let same = (==_iff (c ∷ s) secret).0 h in (ap some same, rw (sym same) refl)

by_session-some :
    (o : Option Session) (p : Principal)
    → by_session o ≡ some p
    → (s : Session) × (o ≡ some s) × (contains s.roles "admin" ≡ true) × (p ≡ session s.sub s.roles)
by_session-some none p h = ground arith
by_session-some (some s) p h = (s, refl, ground arith, ground arith)

by_context-some :
    (r : Result ℕ × Store) (p : Principal)
    → (by_context r).0 ≡ some p
    → (a : ℕ) × (st : Store) × (r ≡ (ok a, st))
      × (contains (st.heap a).roles "admin" ≡ true)
      × (p ≡ workspace (st.heap a).workspace_id (st.heap a).roles)
by_context-some (err e, st) p h = ground arith
by_context-some (ok a, st) p h = (a, st, refl, ground arith, ground arith)

module _ (k : Cookies) (lib : Library) (secret : Text) (r : Request) (now : ℕ) (db : Option Tables)
    (st : Store) where
  -- What lets a principal in.
  abbrev pub Granted : Principal → Type 0
  Granted platform_admin = (r.admin_token ≡ some secret) × (is_empty secret ≡ false)
  Granted (session sub roles) =
      (cookie : Text) × (s : Session) × (r.cookie ≡ some cookie)
      × (verify_session k now cookie ≡ some s)
      × (contains s.roles "admin" ≡ true)
  Granted (workspace id roles) =
      (a : ℕ) × (st' : Store) × (resolve_workspace lib r.authorization now db st ≡ (ok a, st'))
      × (contains (st'.heap a).roles "admin" ≡ true)

  by_cookie-Granted :
      (o : Option Text) (p : Principal) → r.cookie ≡ o → by_cookie k now o ≡ some p → Granted p
  by_cookie-Granted none p sent h = ground arith
  by_cookie-Granted (some []) p sent h = ground arith
  by_cookie-Granted (some (c ∷ t)) p sent h =
      let (s, verified, admin, same) = by_session-some (verify_session k now (c ∷ t)) p h in
      rw same (c ∷ t, s, sent, verified, admin)

  by_key-Granted : (p : Principal) → (by_key lib r.authorization now db st).0 ≡ some p → Granted p
  by_key-Granted p h = elim (Bool-cases (given r.authorization)) [
    | inr missing ↦ ground (arith, rw missing at h)
    | inl sent ↦
        let (a, st', found, admin, same) =
          by_context-some (resolve_workspace lib r.authorization now db st) p (rw sent at h) in
        rw same (a, st', found, admin)
  ]

  -- Admin routes are closed but for three ways in: the platform's token, when it is not empty and
  -- was sent unchanged; a session cookie that verifies and whose roles include admin; a key that
  -- resolves to a context whose roles include admin.
  pub require_admin-Granted :
      (p : Principal) → (require_admin k lib secret r now db st).0 ≡ some p → Granted p
  unfolding require_admin
  require_admin-Granted p h = elim (Bool-cases (by_token secret r.admin_token)) [
    | inl token ↦
        let same : p ≡ platform_admin = ground arith in
        rw same (by_token-some secret r.admin_token token)
    | inr other ↦ elim (Option-cases (by_cookie k now r.cookie)) [
      | inr (q, cookie) ↦
          let same : p ≡ q = ground arith in rw same (by_cookie-Granted r.cookie q refl cookie)
      | inl absent ↦ by_key-Granted p (rw (other, absent) at h)
    ]
  ]
