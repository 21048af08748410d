-- ===== src/Errors/Mapping.antt =====
-- Which statuses leave the gateway.
use agnos_proxy_oss.Base.{
  ℕ, ◌≡◌, refl, Bool, true, false, Option, none, some, ◌||◌, ◌&&◌, not, leb, eqb, nat_eq, arith,
  inl, inr, Option-cases, if◌then◌else◌,
}
use agnos_proxy_oss.Base.Json.{Json, null, bool, int, float, str, arr, obj, Fields}
use agnos_proxy_oss.Errors.{
  ErrorType, provider_auth_error, rate_limit_exceeded, classify, error_of, map_bifrost_error,
  map_texts, map_typed, message_of, names_authentication, or_502, type_of,
}

-- Statuses that say that the gateway itself refused a credential or crashed.
abbrev pub is_own : ℕ → Bool
is_own n = eqb n 401 || eqb n 500

-- The statuses that say that what stands behind the gateway failed.
abbrev pub is_upstream : ℕ → Bool
is_upstream n = eqb n 502 || eqb n 503 || eqb n 504

classify-status :
    (code : ℕ) (a r c o t : Bool)
    → let status = (classify code a r c o t).0 in
      (is_own status ≡ false) × (is_upstream status ≡ leb 500 status)
unfolding classify
classify-status code a r c o t = (ground arith, ground arith)

-- An answer of the mapping.
abbrev pub IsPassed : ℕ × ErrorType → Type 0
IsPassed (status, type_) = (is_own status ≡ false) × (is_upstream status ≡ leb 500 status)

abbrev pub is_text_value : Json → Bool
is_text_value (str s) = true
is_text_value _ = false

-- An error that is no object, or has a message or a type that is neither missing nor a text.
abbrev pub is_malformed : Option Fields → Bool
is_malformed none = true
is_malformed (some e) = not (is_text_value (type_of e) && is_text_value (message_of e))

-- The mapping gives an answer, or the error is malformed and it raises.
abbrev pub Maps : Bool → Option (ℕ × ErrorType) → Type 0
Maps malformed (some answer) = IsPassed answer
Maps malformed none = malformed ≡ true

if-Maps :
    (b malformed : Bool) (m n : Option (ℕ × ErrorType))
    → Maps malformed m
    → Maps malformed n
    → Maps malformed (if b then m else n)
if-Maps true malformed m n h k = h
if-Maps false malformed m n h k = k

limited-Maps : (b : Bool) → Maps true (if b then some (429, rate_limit_exceeded) else none)
limited-Maps true = (refl, refl)
limited-Maps false = refl

map_texts-Maps :
    (code : ℕ) (t m : Json) → Maps (not (is_text_value t && is_text_value m)) (map_texts code t m)
unfolding map_texts
map_texts-Maps code (str t) (str m) = classify-status code false _ _ _ _
map_texts-Maps code (str t) null = limited-Maps _
map_texts-Maps code (str t) (bool b) = limited-Maps _
map_texts-Maps code (str t) (int n) = limited-Maps _
map_texts-Maps code (str t) (float n) = limited-Maps _
map_texts-Maps code (str t) (arr xs) = limited-Maps _
map_texts-Maps code (str t) (obj d) = limited-Maps _
map_texts-Maps code null m = limited-Maps _
map_texts-Maps code (bool b) m = limited-Maps _
map_texts-Maps code (int n) m = limited-Maps _
map_texts-Maps code (float n) m = limited-Maps _
map_texts-Maps code (arr xs) m = limited-Maps _
map_texts-Maps code (obj d) m = limited-Maps _

names_authentication-none : (t : Json) → names_authentication t ≡ none → is_text_value t ≡ false
unfolding names_authentication
names_authentication-none null h = refl
names_authentication-none (bool b) h = refl
names_authentication-none (int n) h = refl
names_authentication-none (float n) h = refl
names_authentication-none (str s) h = ground arith
names_authentication-none (arr xs) h = refl
names_authentication-none (obj d) h = refl

map_typed-Maps :
    (code : ℕ) (t m : Json) (named : Option Bool)
    → names_authentication t ≡ named
    → Maps (not (is_text_value t && is_text_value m)) (map_typed code t m named)
map_typed-Maps code t m none raises = rw (names_authentication-none t raises) refl
map_typed-Maps code t m (some true) named = (refl, refl)
map_typed-Maps code t m (some false) named = map_texts-Maps code t m

-- Of every status and every body of an engine: the mapping passes on neither a 401 nor a bare 500,
-- and a status of 500 or more only as 502, 503 or 504; it returns unless the error is no object, or
-- has a message or a type that is there and is no text, and then an exception may leave it.
pub map_bifrost_error-status :
    (status_code : ℕ) (payload : Fields)
    → Maps (is_malformed (error_of payload)) (map_bifrost_error status_code payload)
unfolding map_bifrost_error
map_bifrost_error-status status_code payload = elim (Option-cases (error_of payload)) [
  | inl e ↦ rw e refl
  | inr (d, e) ↦ rw e (
      if-Maps (eqb (or_502 status_code) 401) _ (some (502, provider_auth_error))
        (map_typed (or_502 status_code) (type_of d) (message_of d)
          (names_authentication (type_of d)))
        (refl, refl) (map_typed-Maps (or_502 status_code) (type_of d) (message_of d) _ refl))
]
