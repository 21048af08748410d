-- ===== src/Pricing.antt =====
-- gateway/core/pricing.py: the price of a model and the cost of a request. A price is a whole number of
-- 10^-11 dollars per thousand tokens, a cost one of 10^-8 dollars; Python rounds the nearest floats
-- of these to eight places. The model's id and the keys of the tables are texts. The download and
-- its file are left out: `ingest` takes the parsed document, of which a model's entry has two
-- optional prices per token, or is no object.
pub mod Resolve
mod Tests
use agnos_proxy_oss.Base.{
  ℕ, zero, suc, ◌+◌, ◌*◌, String, Bool, true, false, Option, none, some, List, [], ◌∷◌, ◌&&◌, ◌||◌,
  not, ltb, eqb, if◌then◌else◌, ◌==◌, list_eq, nat_eq, length, is_empty,
}
use agnos_proxy_oss.Base.Dict.{Dict, lookup, insert, erase}
use agnos_proxy_oss.Base.Text.{Text, text, lower, occurs}
use agnos_proxy_oss.RateLimit.{round_half_even}

-- The price of a thousand tokens of input and of output.
abbrev pub Price : Type 0
Price = ℕ × ℕ

abbrev pub Table : Type 0
Table = Dict Text Price

-- `_PRICING` and `_OVERRIDES`
pub record Prices : Type 0 where
  pub synced : Table
  pub overrides : Table

-- `_BUILTIN`
abbrev pub builtin : Table
builtin =
    (text "claude-sonnet-4-5", (300000000, 1500000000))
    ∷ (text "claude-3-5-haiku", (80000000, 400000000))
    ∷ (text "titan-embed", (2000000, 0))
    ∷ (text "text-embedding-3-small", (2000000, 0))
    ∷ (text "gemini-2.0-flash", (10000000, 40000000))
    ∷ (text "gpt-4o-mini", (15000000, 60000000))
    ∷ (text "gpt-4o", (250000000, 1000000000))
    ∷ []

abbrev pub or_zero : Option ℕ → ℕ
or_zero none = 0
or_zero (some n) = n

abbrev pub Info : Type 0
Info = Option (Option ℕ × Option ℕ)

-- `_ingest`
unfoldable pub ingest : List (Text × Info) → Table → Table
unfolding insert lower
ingest [] t = t
ingest ((model, none) ∷ raw) t = ingest raw t
ingest ((model, some (none, none)) ∷ raw) t = ingest raw t
ingest ((model, some (some i, o)) ∷ raw) t =
    ingest raw (insert (lower model) (i * 1000, or_zero o * 1000) t)
ingest ((model, some (none, some o)) ∷ raw) t = ingest raw (insert (lower model) (0, o * 1000) t)

unfoldable pub set_override : Text → Price → Prices → Prices
unfolding insert lower
set_override model p s = record s { overrides = insert (lower model) p s.overrides }

unfoldable pub clear_override : Text → Prices → Prices
unfolding erase lower
clear_override model s = record s { overrides = erase (lower model) s.overrides }

-- `load_overrides`, from the rows of the table; `none` is a database that raises.
unfoldable pub load_rows : List (Text × Price) → Table → Table
unfolding insert lower
load_rows [] t = t
load_rows ((model, p) ∷ rows) t = load_rows rows (insert (lower model) p t)

abbrev pub load_overrides : Option (List (Text × Price)) → Prices → Prices
load_overrides none s = s
load_overrides (some rows) s = record s { overrides = load_rows rows [] }

pub data Source : Type 0 where
  override : Source
  synced : Source
  builtin_table : Source
  no_source : Source

abbrev pub is_longer : Text → Option Text → Bool
is_longer key none = true
is_longer key (some best) = ltb (length best) (length key)

-- The loop over one table: the longest key that the id contains, the first of those.
unfoldable pub best_key : Text → Table → Option Text → Option Text
unfolding occurs
best_key mid [] best = best
best_key mid ((key, p) ∷ t) best =
    if not (is_empty key) && occurs key mid && is_longer key best
    then best_key mid t (some key)
    else best_key mid t best

abbrev pub price_at : Text → Table → Price
price_at key t = elim (lookup key t) [ none ↦ (0, 0) | some p ↦ p ]

-- The loop over the tables.
unfoldable pub by_substring : Text → List (Table × Source) → Price × Source
unfolding best_key lookup
by_substring mid [] = ((0, 0), no_source)
by_substring mid ((t, src) ∷ ts) =
    let rest = by_substring mid ts in
    elim (best_key mid t none) [ none ↦ rest | some key ↦ (price_at key t, src) ]

abbrev pub tables : Prices → List (Table × Source)
tables s = (s.overrides, override) ∷ (s.synced, synced) ∷ (builtin, builtin_table) ∷ []

-- `_resolve`
unfoldable pub resolve : Prices → Text → Price × Source
unfolding by_substring lookup lower
resolve s provider_model_id =
    let mid = lower provider_model_id in
    elim (lookup mid s.overrides) [
      | some p ↦ (p, override)
      | none ↦ elim (lookup mid s.synced) [
        | some p ↦ (p, synced)
        | none ↦ by_substring mid (tables s)
      ]
    ]

abbrev pub price_source : Prices → Text → Source
price_source s m = (resolve s m).1

abbrev pub price_for : Prices → Text → Price
price_for s m = (resolve s m).0

abbrev pub cost_unit : ℕ
cost_unit = 1000 * 1000

-- `compute_cost`
unfoldable pub compute_cost : Prices → Text → ℕ → ℕ → ℕ
unfolding resolve round_half_even
compute_cost s m input_tokens output_tokens =
    let (i, o) = price_for s m in round_half_even (input_tokens * i + output_tokens * o) cost_unit
