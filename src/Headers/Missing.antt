-- ===== src/Headers/Missing.antt =====
-- When a required header counts as missing.
use agnos_proxy_oss.Base.{
  ◌≡◌, ◌↔◌, refl, Bool, true, Option, none, some, List, [], ◌∷◌, if◌then◌else◌, ◌==◌, list_eq,
  nat_eq, ==_iff, arith, contains, is_empty,
}
use agnos_proxy_oss.Base.Dict.{Dict, lookup, insert, lookup-insert}
use agnos_proxy_oss.Base.Text.{Text, lower, strip}
use agnos_proxy_oss.Headers.{lower_present, is_missing, missing_in, missing_required_headers}

-- The value of the last header of a name, in lower case, or of an earlier dict.
abbrev pub last_value : Text → List (Text × Text) → Option Text → Option Text
last_value name [] before = before
last_value name ((k, v) ∷ hs) before =
    last_value name hs (if name == lower k then some (strip v) else before)

lookup-lower_present :
    (name : Text) (hs : List (Text × Text)) (d : Dict Text Text)
    → lookup name (lower_present hs d) ≡ last_value name hs (lookup name d)
unfolding lower_present
lookup-lower_present name [] d = refl
lookup-lower_present name ((k, v) ∷ hs) d =
    let rest = lookup-lower_present name hs (insert (lower k) (strip v) d) in
    rw (rest, lookup-insert (lower k) name (strip v) d) refl

abbrev pub is_blank_value : Option Text → Bool
is_blank_value none = true
is_blank_value (some v) = is_empty v

is_missing_lem :
    (hs : List (Text × Text)) (name : Text)
    → is_missing (lower_present hs []) name ≡ is_blank_value (last_value (lower name) hs none)
unfolding is_missing
is_missing_lem hs name = ground (arith, lookup-lower_present (lower name) hs [])

contains-missing_in :
    (d : Dict Text Text) (names : List Text) (name : Text)
    → (contains (missing_in d names) name ≡ true)
      ↔ ((contains names name ≡ true) × (is_missing d name ≡ true))
contains-missing_in d [] name = ground arith
contains-missing_in d (n ∷ names) name =
    ground (arith, contains-missing_in d names name, ==_iff name n)

-- The headers that are reported are those of the required list for which no header of the request
-- has the same name up to the case of its letters, or for which the last one that has is blank.
pub contains-missing_required_headers :
    (present : List (Text × Text)) (required : List Text) (name : Text)
    → (contains (missing_required_headers present required) name ≡ true) ↔ (
        (contains required name ≡ true)
        × (is_blank_value (last_value (lower name) present none) ≡ true))
unfolding missing_required_headers
contains-missing_required_headers present required name = ground (
  arith,
  contains-missing_in (lower_present present []) required name,
  is_missing_lem present name,
)
