-- ===== src/Base/Json.antt =====
-- The values of a JSON document as Python holds them, and what the program asks of them. A float
-- is a number of millionths.
use Prim.Native.Nat.{ℕ, zero, suc, ◌+◌, ◌*◌, ◌-◌}
use Prim.Native.String.{String}
use mathlib.Core.List.{List, [], ◌∷◌}
use mathlib.Core.Bool.{Bool, true, false, not, ◌&&◌}
use mathlib.Core.Option.{Option, none, some}
use agnos_proxy_oss.Base.Tests.{leb, eqb, if◌then◌else◌}
use agnos_proxy_oss.Base.Equality.{string_eq}
use agnos_proxy_oss.Base.Text.{Text, text, strip}

-- `negsuc n` is -(n + 1).
pub data ℤ : Type 0 where
  pos : ℕ → ℤ
  negsuc : ℕ → ℤ

mutual
  pub data Json : Type 0 where
    null : Json
    bool : Bool → Json
    int : ℤ → Json
    float : ℤ → Json
    str : String → Json
    arr : Items → Json
    obj : Fields → Json

  pub data Items : Type 0 where
    nil : Items
    cons : Json → Items → Items

  pub data Fields : Type 0 where
    end : Fields
    field : String → Json → Fields → Fields

-- `d.get(k)`
unfoldable pub get : String → Fields → Option Json
get k end = none
get k (field j v d) = if string_eq.beq k j then some v else get k d

abbrev pub items : Items → List Json
items nil = []
items (cons x xs) = x ∷ items xs

-- `bool(v)`
abbrev pub is_truthy : Json → Bool
is_truthy null = false
is_truthy (bool b) = b
is_truthy (int (pos zero)) = false
is_truthy (int (pos (suc n))) = true
is_truthy (int (negsuc n)) = true
is_truthy (float (pos zero)) = false
is_truthy (float (pos (suc n))) = true
is_truthy (float (negsuc n)) = true
is_truthy (str s) = not (string_eq.beq s "")
is_truthy (arr nil) = false
is_truthy (arr (cons x xs)) = true
is_truthy (obj end) = false
is_truthy (obj (field k v d)) = true

-- `d.get(k)` where a missing key and `None` are one.
abbrev pub get_or_null : String → Fields → Json
get_or_null k d = elim (get k d) [ none ↦ null | some v ↦ v ]

-- `a or b`
abbrev pub or_else : Json → Json → Json
or_else a b = if is_truthy a then a else b

-- The digits of an `int`: each one or more, single underscores between them.
unfoldable pub digits_value : Bool → ℕ → Text → Option ℕ
digits_value after_digit acc [] = if after_digit then some acc else none
digits_value after_digit acc (c ∷ s) =
    let next = digits_value true (acc * 10 + (c - b'0')) s in
    let skip = digits_value false acc s in
    if leb b'0' c && leb c b'9' then next else if eqb c b'_' && after_digit then skip else none

abbrev negated : ℕ → ℤ
negated zero = pos zero
negated (suc n) = negsuc n

abbrev pub signed_value : Text → Option ℤ
signed_value [] = none
signed_value (c ∷ s) =
    let minus : Option ℤ = elim (digits_value false 0 s) [
      | none ↦ none
      | some n ↦ some (negated n)
    ] in
    let plus : Option ℤ = elim (digits_value false 0 s) [ none ↦ none | some n ↦ some (pos n) ] in
    let plain : Option ℤ = elim (digits_value false 0 (c ∷ s)) [
      | none ↦ none
      | some n ↦ some (pos n)
    ] in
    if eqb c b'-' then minus else if eqb c b'+' then plus else plain

-- `int(s)` of a text.
unfoldable pub parse_int : String → Option ℤ
unfolding digits_value strip
parse_int s = signed_value (strip (text s))

-- `int(str(v))`: `none` is the `ValueError`. A bool, a float and a container are written in a way
-- that is no whole number.
unfoldable pub int_of : Json → Option ℤ
unfolding parse_int
int_of (int n) = some n
int_of (str s) = parse_int s
int_of _ = none
