-- ===== src/Errors/Tests.antt =====
-- The mapping of concrete errors.
use agnos_proxy_oss.Base.{◌≡◌, refl, none, some}
use agnos_proxy_oss.Base.Json.{Json, str, obj, Fields, field, end, get}
use agnos_proxy_oss.Errors.{error_of, map_bifrost_error, provider_auth_error}
use agnos_proxy_oss.Errors.Mapping.{Maps, is_malformed, map_bifrost_error-status}

abbrev payload : Json → Fields
payload e = field "error" e end

abbrev bad_key : Fields
bad_key = payload (obj (field "message" (str "bad key") end))

map_bifrost_error-status_example :
    Maps (is_malformed (error_of bad_key)) (map_bifrost_error 401 bad_key)
map_bifrost_error-status_example = map_bifrost_error-status 401 bad_key

unauthorized : map_bifrost_error 401 bad_key ≡ some (502, provider_auth_error)
unfolding map_bifrost_error get
unauthorized = refl

-- An error that is a text has no fields.
error_text : map_bifrost_error 500 (payload (str "overloaded")) ≡ none
unfolding map_bifrost_error get
error_text = refl
