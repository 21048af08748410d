-- ===== src/Validation.antt =====
-- gateway/core/admin_validation.py: the checks of every body that the admin routes store. A body is a JSON object; a
-- validator gives the list of its errors, each with its place in the body and what is wrong there,
-- without the wording of the message. The regular expressions are read on ASCII letters and digits.
pub mod Alias
pub mod Blobs
pub mod Tenants
pub mod Provider
pub mod Records
pub mod Accepted
pub mod Resolvable
pub mod Deadline
mod Tests
use agnos_proxy_oss.Base.{
  ℕ, zero, suc, String, Bool, true, false, Option, none, some, List, [], ◌∷◌, ◌++◌, ◌&&◌, ◌||◌, not,
  eqb, leb, if◌then◌else◌, string_eq, list_eq, nat_eq, ◌==◌, contains, all, length, is_empty,
}
use agnos_proxy_oss.Base.Text.{Text, text, strip, is_blank}
use agnos_proxy_oss.Base.Json.{
  ℤ, pos, negsuc, Json, null, bool, int, float, str, arr, obj, Fields, get,
}

-- An element of `loc`.
pub data Place : Type 0 where
  at : String → Place
  nth : ℕ → Place

-- What an error says.
pub data Complaint : Type 0 where
  not_an_object not_a_list no_target required unknown_value unconfigured : Complaint
  not_a_number negative duplicate not_a_boolean not_integers not_positive too_long too_short :
      Complaint
  malformed missing_row not_in_map out_of_range past no_effect : Complaint

-- `err`
pub record Error : Type 0 where
  pub loc : List Place
  pub complaint : Complaint

abbrev pub err : List Place → Complaint → List Error
err loc complaint = record { loc = loc; complaint = complaint } ∷ []

-- `raise_if`: the status of the exception, if there is one.
unfoldable pub raise_if : List Error → Option ℕ
raise_if [] = none
raise_if (e ∷ es) = some 422

-- The error of a test that fails.
abbrev pub unless : Bool → List Error → List Error
unless true es = []
unless false es = es

-- `PROVIDERS`
abbrev pub providers : List String
providers =
    "anthropic" ∷ "bedrock" ∷ "gemini" ∷ "openai" ∷ "azure" ∷ "google_genai" ∷ "vertex_ai"
    ∷ "litellm_proxy" ∷ "ollama" ∷ "hosted_vllm" ∷ []

abbrev pub guardrail_modes : List String
guardrail_modes = "block" ∷ "redact" ∷ "audit" ∷ []

-- `v in choices`
abbrev pub is_one_of : List String → Json → Bool
is_one_of choices (str s) = contains choices s
is_one_of choices _ = false

-- `s.strip()` of a text, and whether a value is a text that is not blank.
abbrev pub stripped : Json → Text
stripped (str s) = strip (text s)
stripped _ = []

unfoldable pub is_filled : Json → Bool
unfolding strip
is_filled (str s) = not (is_empty (strip (text s)))
is_filled _ = false

-- `_is_pos_int`
unfoldable pub is_pos_int : Json → Bool
is_pos_int (int (pos (suc n))) = true
is_pos_int _ = false

-- `_is_nonneg_number`
unfoldable pub is_nonneg_number : Json → Bool
is_nonneg_number (int (pos n)) = true
is_nonneg_number (float (pos n)) = true
is_nonneg_number _ = false

abbrev pub is_lower : ℕ → Bool
is_lower c = leb b'a' c && leb c b'z'

abbrev pub is_decimal : ℕ → Bool
is_decimal c = leb b'0' c && leb c b'9'

abbrev pub is_alnum : ℕ → Bool
is_alnum c = is_lower c || is_decimal c

abbrev pub last_is_alnum : Text → Bool
last_is_alnum [] = false
last_is_alnum (c ∷ []) = is_alnum c
last_is_alnum (c ∷ d ∷ s) = last_is_alnum (d ∷ s)

-- `SLUG_RE`
unfoldable pub is_slug : Text → Bool
is_slug [] = false
is_slug (c ∷ []) = is_alnum c
is_slug (c ∷ d ∷ s) =
    is_alnum c
    && all (λ x. is_alnum x || eqb x b'-') (d ∷ s)
    && last_is_alnum (d ∷ s)
    && leb 3 (length (c ∷ d ∷ s))
    && leb (length (c ∷ d ∷ s)) 64

abbrev pub from_scheme : Text → Text → Bool
from_scheme [] s = not (is_empty s) && all (λ c. not (is_blank c)) s
from_scheme (d ∷ scheme) [] = false
from_scheme (d ∷ scheme) (c ∷ s) = eqb c d && from_scheme scheme s

-- `_is_url`
unfoldable pub is_url : Text → Bool
unfolding strip
is_url s = from_scheme (text "http://") (strip s) || from_scheme (text "https://") (strip s)

-- The parts between the hyphens.
abbrev pub add_first : ℕ → List Text → List Text
add_first c [] = (c ∷ []) ∷ []
add_first c (w ∷ ws) = (c ∷ w) ∷ ws

unfoldable pub hyphenated : Text → List Text
hyphenated [] = [] ∷ []
hyphenated (c ∷ s) = if eqb c b'-' then [] ∷ hyphenated s else add_first c (hyphenated s)

-- `_is_aws_region`
unfoldable pub is_aws_region : Text → Bool
unfolding hyphenated strip
is_aws_region s = region_parts (hyphenated (strip s))
  where
    region_parts : List Text → Bool
    region_parts (a ∷ b ∷ n ∷ []) =
        all is_lower a
        && leb 2 (length a)
        && leb (length a) 3
        && all is_lower b
        && leb 1 (length b)
        && all is_decimal n
        && leb 1 (length n)
    region_parts _ = false

abbrev pub digits : ℕ → Text → Bool
digits n s = all is_decimal s && eqb (length s) n

-- The pattern of an API version.
unfoldable pub is_api_version : Text → Bool
unfolding hyphenated
is_api_version s = version_parts (hyphenated s)
  where
    version_parts : List Text → Bool
    version_parts (y ∷ m ∷ d ∷ []) = digits 4 y && digits 2 m && digits 2 d
    version_parts (y ∷ m ∷ d ∷ w ∷ []) =
        digits 4 y && digits 2 m && digits 2 d && (w == text "preview")
    version_parts _ = false
