-- ===== src/Pricing/Tests.antt =====
-- Prices on concrete tables.
use agnos_proxy_oss.Base.{refl, [], ◌∷◌}
use agnos_proxy_oss.Base.Dict.{lookup}
use agnos_proxy_oss.Base.Text.{text, lower}
use agnos_proxy_oss.Pricing.{Prices, tables, resolve}
use agnos_proxy_oss.Pricing.Resolve.{Decided, resolve-Decided}

abbrev prices : Prices
prices = record {
  synced = (text "gpt-4o", (250, 1000)) ∷ [];
  overrides = (text "gpt", (1, 2)) ∷ [];
}

resolve-Decided_example :
    Decided (lower (text "us.GPT-4o")) (tables prices) (resolve prices (text "us.GPT-4o"))
unfolding lookup lower
resolve-Decided_example = resolve-Decided prices (text "us.GPT-4o") refl refl
