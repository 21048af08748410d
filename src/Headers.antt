-- ===== src/Headers.antt =====
-- gateway/core/required_headers.py: the headers that a client's requests must carry. Names and values
-- are texts; the message of the 400 is left out. The database's answer is the client's row, none if
-- there is no such client; a database that is down raises, which is the outer `none`.
pub mod Missing
mod Tests
use agnos_proxy_oss.Base.{
  ℕ, ◌+◌, String, Bool, true, false, Option, none, some, List, [], ◌∷◌, ltb, not, if◌then◌else◌,
  ◌==◌, string_eq, list_eq, nat_eq, truthy, is_empty,
}
use agnos_proxy_oss.Base.Dict.{Dict, lookup, insert}
use agnos_proxy_oss.Base.Text.{Text, lower, strip}

abbrev pub Cache : Type 0
Cache = Dict String (List Text × ℕ)

abbrev pub ttl : ℕ
ttl = 30

abbrev pub or_empty : Option (List Text) → List Text
or_empty none = []
or_empty (some hs) = hs

abbrev pub ask : String → ℕ → Option (Option (List Text)) → Cache → Option (List Text) × Cache
ask client_id now none c = (none, c)
ask client_id now (some row) c = (some (or_empty row), insert client_id (or_empty row, now + ttl) c)

-- `required_headers_for`
unfoldable pub required_headers_for :
    Option String → ℕ → Option (Option (List Text)) → Cache → Option (List Text) × Cache
unfolding lookup insert
required_headers_for none now db c = (some [], c)
required_headers_for (some client_id) now db c =
    let asked = ask client_id now db c in
    if truthy (some client_id)
    then elim (lookup client_id c) [
      | none ↦ asked
      | some (hs, expiry) ↦ if ltb now expiry then (some hs, c) else asked
    ]
    else (some [], c)

-- `lower_present`: a later header replaces an earlier one of the same name.
unfoldable pub lower_present : List (Text × Text) → Dict Text Text → Dict Text Text
unfolding insert lower strip
lower_present [] d = d
lower_present ((k, v) ∷ hs) d = lower_present hs (insert (lower k) (strip v) d)

-- `not lower_present.get(name.lower())`
unfoldable pub is_missing : Dict Text Text → Text → Bool
unfolding lookup lower
is_missing d name = elim (lookup (lower name) d) [ none ↦ true | some v ↦ is_empty v ]

abbrev pub missing_in : Dict Text Text → List Text → List Text
missing_in d [] = []
missing_in d (name ∷ names) =
    if is_missing d name then name ∷ missing_in d names else missing_in d names

unfoldable pub missing_required_headers : List (Text × Text) → List Text → List Text
unfolding lower_present is_missing
missing_required_headers present required = missing_in (lower_present present []) required

-- `param` of `required_headers_error`
abbrev pub error_param : List Text → Option Text
error_param [] = none
error_param (name ∷ names) = some name
