-- ===== src/Engines/Tests.antt =====
-- A canary of 25 per cent.
use agnos_proxy_oss.Base.Json.{Fields, field, end, int, pos}

abbrev quarter : Fields
quarter = field "openai" (int (pos 25)) end
