-- ===== src/Base/Text.antt =====
-- Text that the program looks into, as a list of code points: `lower`, `strip` and `in`. Only the
-- ASCII letters change their case and only the ASCII blanks are stripped.
use Prim.Native.Nat.{ℕ, ◌+◌}
use Prim.Native.Char.{code}
use Prim.Native.String.{String}
use mathlib.Core.Path.{◌≡◌, refl}
use mathlib.Core.List.{List, [], ◌∷◌, map, reverse}
use mathlib.Core.Bool.{Bool, true, false, ◌&&◌, ◌||◌}
use native.Mathlib.Omega.{arith}
use agnos_proxy_oss.Base.Tests.{leb, eqb, if◌then◌else◌}

abbrev pub Text : Type 0
Text = List ℕ

-- The code points of a literal.
abbrev pub text : String → Text
text String.[] = []
text (String.◌∷◌ c s) = code c ∷ text s

abbrev pub lower_code : ℕ → ℕ
lower_code c = if leb b'A' c && leb c b'Z' then c + 32 else c

-- `s.lower()`
unfoldable pub lower : Text → Text
lower = map lower_code

abbrev pub is_blank : ℕ → Bool
is_blank c = eqb c 32 || (leb 9 c && leb c 13)

unfoldable pub strip_left : Text → Text
strip_left [] = []
strip_left (c ∷ s) = if is_blank c then strip_left s else c ∷ s

-- `s.strip()`
unfoldable pub strip : Text → Text
unfolding strip_left
strip s = reverse (strip_left (reverse (strip_left s)))

-- `s.startswith(t)`
unfoldable pub begins : Text → Text → Bool
begins s [] = true
begins [] (d ∷ t) = false
begins (c ∷ s) (d ∷ t) = eqb c d && begins s t

-- `t in s`
unfoldable pub occurs : Text → Text → Bool
unfolding begins
occurs t [] = begins [] t
occurs t (c ∷ s) = begins (c ∷ s) t || occurs t s

lower_code_idem : (c : ℕ) → lower_code (lower_code c) ≡ lower_code c
lower_code_idem c = ground arith

pub lower_idem : (s : Text) → lower (lower s) ≡ lower s
unfolding lower
lower_idem [] = refl
lower_idem (c ∷ s) = cc (lower_code_idem c, lower_idem s)
