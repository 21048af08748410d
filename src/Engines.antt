-- ===== src/Engines.antt =====
-- gateway/runtime.py: which engine serves a provider. An engine is its slot; the default engine is made
-- at its first use. The overrides are the gateway-wide JSON object. A random number and a
-- percentage are millionths; Python's `float` of a text is the parameter `float_of`.
pub mod Canary
mod Tests
use agnos_proxy_oss.Base.{
  ℕ, zero, suc, ◌*◌, String, Bool, true, false, Option, none, some, List, [], ◌∷◌, ltb,
  if◌then◌else◌, contains, string_eq, ◌==◌, ◌&&◌,
}
use agnos_proxy_oss.Base.Json.{
  ℤ, pos, negsuc, Json, null, bool, int, float, str, arr, obj, Fields, get_or_null, get, is_truthy,
}

pub data Engine : Type 0 where
  direct echo litellm portkey bifrost : Engine

-- `engine_by_name`
unfoldable pub engine_by_name : String → Engine
engine_by_name name =
    if name == "direct"
    then direct
    else if name == "echo"
    then echo
    else if name == "litellm"
    then litellm
    else if name == "portkey"
    then portkey
    else bifrost

-- `engine`, and `_engine` after it.
unfoldable pub default_engine : String → Option Engine → Engine × Option Engine
unfolding engine_by_name
default_engine setting none = (engine_by_name setting, some (engine_by_name setting))
default_engine setting (some e) = (e, some e)

abbrev pub direct_only : List String
direct_only =
    "litellm_proxy" ∷ "ollama" ∷ "hosted_vllm" ∷ "lm-studio" ∷ "google_genai" ∷ "vertex_ai" ∷ []

-- A percentage that is not above zero counts as zero.
abbrev pub percent_of : ℤ → ℕ
percent_of (pos n) = n
percent_of (negsuc n) = 0

abbrev pub whole_percent : ℤ → ℕ
whole_percent (pos n) = n * 1000000
whole_percent (negsuc n) = 0

-- `float(ov.get("direct_pct", 0) or 0)`, 0 where it raises.
abbrev pub direct_pct : (String → Option ℤ) → Json → ℕ
direct_pct float_of null = 0
direct_pct float_of (bool b) = if b then 1000000 else 0
direct_pct float_of (int n) = whole_percent n
direct_pct float_of (float n) = percent_of n
direct_pct float_of (str s) =
    if s == "" then 0 else elim (float_of s) [ none ↦ 0 | some n ↦ percent_of n ]
direct_pct float_of (arr xs) = 0
direct_pct float_of (obj d) = 0

-- `pct` of an override that is no text.
abbrev pub percentage : (String → Option ℤ) → Json → ℕ
percentage float_of null = 0
percentage float_of (bool b) = if b then 1000000 else 0
percentage float_of (int n) = whole_percent n
percentage float_of (float n) = percent_of n
percentage float_of (str s) = 0
percentage float_of (arr xs) = 0
percentage float_of (obj d) = direct_pct float_of (get_or_null "direct_pct" d)

-- `pct > 0 and random.random() * 100.0 < pct`
abbrev pub canary : ℕ → ℕ → Bool
canary random pct = ltb (random * 100) pct

-- The part of `select_engine` after the look into the overrides.
abbrev pub by_override :
    (String → Option ℤ) → String → ℕ → Json → Option Engine → Engine × Option Engine
by_override float_of setting random null st = default_engine setting st
by_override float_of setting random (str s) st =
    if s == "" then default_engine setting st else (engine_by_name s, st)
by_override float_of setting random ov st =
    if canary random (percentage float_of ov) then (direct, st) else default_engine setting st

-- `select_engine`
unfoldable pub select_engine :
    (String → Option ℤ) → String → ℕ → Fields → String → Option Engine → Engine × Option Engine
unfolding default_engine get
select_engine float_of setting random overrides provider st =
    if contains direct_only provider
    then (direct, st)
    else by_override float_of setting random (get_or_null provider overrides) st
