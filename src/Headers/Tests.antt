-- ===== src/Headers/Tests.antt =====
-- Required headers on a concrete request.
use agnos_proxy_oss.Base.{◌≡◌, ◌↔◌, true, none, [], ◌∷◌, contains, list_eq, nat_eq}
use agnos_proxy_oss.Base.Text.{text, lower}
use agnos_proxy_oss.Headers.{missing_required_headers}
use agnos_proxy_oss.Headers.Missing.{last_value, is_blank_value, contains-missing_required_headers}

contains-missing_required_headers_example :
    (contains
        (missing_required_headers ((text "x-team", text " ") ∷ []) (text "X-Team" ∷ []))
        (text "X-Team")
      ≡ true)
    ↔ ((contains (text "X-Team" ∷ []) (text "X-Team") ≡ true)
        × (is_blank_value (last_value (lower (text "X-Team")) ((text "x-team", text " ") ∷ []) none)
            ≡ true))
contains-missing_required_headers_example =
    contains-missing_required_headers ((text "x-team", text " ") ∷ []) (text "X-Team" ∷ [])
      (text "X-Team")
