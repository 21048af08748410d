-- ===== src/Errors.antt =====
-- gateway/core/errors.py: how the error of an engine becomes an HTTP status and the type of an
-- OpenAI error body. An error that is no object, and a message or a type of another kind than a
-- text, make `map_bifrost_error` raise where it looks into them, which is `none`. The wording of
-- the messages that the gateway adds is left out.
pub mod Mapping
mod Tests
use agnos_proxy_oss.Base.{
  ℕ, ◌≤◌, String, Bool, true, false, Option, none, some, List, [], ◌∷◌, ◌++◌, ◌&&◌, ◌||◌, not, leb,
  eqb, if◌then◌else◌, is_empty, contains, nat_eq, string_eq,
}
use agnos_proxy_oss.Base.Text.{Text, text, lower, occurs}
use agnos_proxy_oss.Base.Json.{
  Json, null, str, arr, obj, Items, nil, cons, Fields, end, get, get_or_null, or_else,
}

pub data ErrorType : Type 0 where
  provider_auth_error : ErrorType
  rate_limit_exceeded : ErrorType
  context_length_exceeded : ErrorType
  invalid_request_error : ErrorType
  timeout : ErrorType
  upstream_error : ErrorType

-- `err`; `none` is an error that is no object, which has no `get`.
abbrev pub error_of : Fields → Option Fields
error_of payload = elim (get "error" payload) [
  | none ↦ some end
  | some v ↦ elim v [ obj e ↦ some e | _ ↦ none ]
]

-- `message`
abbrev pub message_of : Fields → Json
message_of e =
    or_else (or_else (get_or_null "message" e) (get_or_null "error" e))
      (str "Upstream provider error.")

-- `upstream_type`
abbrev pub type_of : Fields → Json
type_of e = or_else (get_or_null "type" e) (str "")

abbrev pub or_502 : ℕ → ℕ
or_502 n = if eqb n 0 then 502 else n

abbrev pub is_context_error : Text → Bool
is_context_error low =
    occurs (text "context") low
    && (occurs (text "length") low || occurs (text "window") low || occurs (text "token") low)

abbrev pub is_rate_error : Text → Text → Bool
is_rate_error upstream_type message =
    occurs (text "rate") (lower upstream_type)
    || occurs (text "throttl") (lower (upstream_type ++ message))

abbrev pub is_overload : Text → Text → Bool
is_overload upstream_type message = occurs (text "overload") (lower (upstream_type ++ message))

abbrev pub is_timeout : Text → Text → Bool
is_timeout upstream_type message =
    occurs (text "timed out") (lower message)
    || occurs (text "request_timed_out") (lower upstream_type)
    || occurs (text "timeout") (lower upstream_type)

-- The returns of `map_bifrost_error`, by the code and what its texts say.
unfoldable pub classify : ℕ → Bool → Bool → Bool → Bool → Bool → ℕ × ErrorType
classify code authentication rate context_error overload timed_out =
    if eqb code 401 || authentication
    then (502, provider_auth_error)
    else if eqb code 429 || rate
    then (429, rate_limit_exceeded)
    else if eqb code 400
    then (400, if context_error then context_length_exceeded else invalid_request_error)
    else if eqb code 529 || overload
    then (503, upstream_error)
    else if eqb code 504 || timed_out
    then (504, timeout)
    else if eqb code 502 || eqb code 503 || eqb code 504
    then (code, upstream_error)
    else if leb 500 code
    then (502, upstream_error)
    else (code, upstream_error)

-- `"authentication" in upstream_type`: in a text, in a list, or a key of an object; else it raises.
unfoldable pub lists_text : String → Items → Bool
lists_text s nil = false
lists_text s (cons (str t) xs) = string_eq.beq t s || lists_text s xs
lists_text s (cons v xs) = lists_text s xs

abbrev pub is_key : String → Fields → Bool
is_key k d = elim (get k d) [ none ↦ false | some v ↦ true ]

unfoldable pub names_authentication : Json → Option Bool
unfolding occurs lists_text get
names_authentication (str t) = some (occurs (text "authentication") (text t))
names_authentication (arr xs) = some (lists_text "authentication" xs)
names_authentication (obj d) = some (is_key "authentication" d)
names_authentication _ = none

-- From the second test on, for an error that names no authentication.
unfoldable pub map_texts : ℕ → Json → Json → Option (ℕ × ErrorType)
unfolding classify occurs lower
map_texts code (str t) (str m) =
    let upstream_type = text t in
    let message = text m in
    some (
      classify code false (is_rate_error upstream_type message) (is_context_error (lower message))
        (is_overload upstream_type message) (is_timeout upstream_type message))
map_texts code (str t) _ =
    if eqb code 429 || occurs (text "rate") (lower (text t))
    then some (429, rate_limit_exceeded)
    else none
map_texts code _ _ = if eqb code 429 then some (429, rate_limit_exceeded) else none

abbrev pub map_typed : ℕ → Json → Json → Option Bool → Option (ℕ × ErrorType)
map_typed code type_ message none = none
map_typed code type_ message (some true) = some (502, provider_auth_error)
map_typed code type_ message (some false) = map_texts code type_ message

abbrev pub map_error : ℕ → Option Fields → Option (ℕ × ErrorType)
map_error code none = none
map_error code (some e) =
    if eqb code 401
    then some (502, provider_auth_error)
    else map_typed code (type_of e) (message_of e) (names_authentication (type_of e))

-- `map_bifrost_error`: the status and the type of the body. A payload is always an object.
unfoldable pub map_bifrost_error : ℕ → Fields → Option (ℕ × ErrorType)
unfolding get names_authentication map_texts
map_bifrost_error status_code payload = map_error (or_502 status_code) (error_of payload)

-- `map_exception`, by the lower-case name of the exception's class.
unfoldable pub map_exception : Text → ℕ × ErrorType
unfolding occurs
map_exception name = if occurs (text "timeout") name then (504, timeout) else (502, upstream_error)
