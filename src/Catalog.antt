-- ===== src/Catalog.antt =====
-- gateway/core/model_catalog.py: the catalog of models that an operator curates. The table is the list of
-- its rows, `none` a database that raises; the YAML file is the parsed document, `none` one that
-- cannot be read, in which a provider's entry has two lists of models or is no object.
use agnos_proxy_oss.Base.{
  ℕ, ◌+◌, String, Bool, true, false, Option, none, some, List, [], ◌∷◌, ◌++◌, ◌&&◌, ◌||◌, not, ltb,
  if◌then◌else◌, ◌==◌, string_eq, any, keep, length, contains, is_empty,
}
use agnos_proxy_oss.Base.Text.{text, lower, occurs}
use agnos_proxy_oss.Pricing.{Prices, Price, price_for}

-- A row of `ModelCatalog`.
pub record Row : Type 0 where
  pub provider : String
  pub model_id : String
  pub context_window : ℕ
  pub supports_tools : Bool
  pub supports_images : Bool
  pub supports_reasoning : Bool
  pub supports_streaming : Bool
  pub price : Price
  pub enabled : Bool

-- `_CACHE`: the rows and when they expire.
abbrev pub Cache : Type 0
Cache = Option (List Row × ℕ)

abbrev pub ttl : ℕ
ttl = 5

abbrev pub query : ℕ → Option (List Row) → Cache → Option (List Row) × Cache
query now none c = (none, c)
query now (some rows) c = (some rows, some (rows, now + ttl))

-- `_all_rows`
unfoldable pub all_rows : ℕ → Option (List Row) → Cache → Option (List Row) × Cache
all_rows now db none = query now db none
all_rows now db (some (rows, expiry)) =
    if ltb now expiry then (some rows, some (rows, expiry)) else query now db (some (rows, expiry))

-- `invalidate_catalog_cache`
unfoldable pub invalidate_catalog_cache : Cache → Cache
invalidate_catalog_cache c = none

-- The loop of `is_eligible`: the first row of the model decides.
unfoldable pub is_listed : String → String → List Row → Bool
is_listed provider model_id [] = true
is_listed provider model_id (r ∷ rs) =
    if r.provider == provider && r.model_id == model_id
    then r.enabled
    else is_listed provider model_id rs

abbrev pub listed_in : String → String → Option (List Row) → Option Bool
listed_in provider model_id none = none
listed_in provider model_id (some rows) = some (is_listed provider model_id rows)

-- `is_eligible`; a database that raises is `none`.
unfoldable pub is_eligible : String → String → ℕ → Option (List Row) → Cache → Option Bool × Cache
unfolding all_rows is_listed
is_eligible provider model_id now db c =
    let (rows, c') = all_rows now db c in (listed_in provider model_id rows, c')

abbrev pub rows_for : List String → Option (List Row) → Option (List Row)
rows_for configured none = none
rows_for configured (some rows) =
    some (keep (λ r. r.enabled && contains configured r.provider) rows)

-- `catalog_for_workspace`
unfoldable pub catalog_for_workspace :
    List String → ℕ → Option (List Row) → Cache → Option (List Row) × Cache
unfolding all_rows
catalog_for_workspace configured now db c =
    let (rows, c') = all_rows now db c in (rows_for configured rows, c')

-- `_NO_REASONING`
abbrev pub no_reasoning : List String
no_reasoning =
    "titan" ∷ "cohere" ∷ "llama" ∷ "mistral" ∷ "j2-" ∷ "gpt-3.5" ∷ "command" ∷ "instant" ∷ []

-- `_infer_row`
unfoldable pub infer_row : Prices → String → String → Bool → Row
unfolding lower occurs
infer_row prices provider model_id is_embed = record {
  provider = provider;
  model_id = model_id;
  context_window =
      if provider == "gemini" && not is_embed
      then 1_000_000
      else if is_embed
      then 8_192
      else 200_000;
  supports_tools = not is_embed;
  supports_images = not is_embed;
  supports_reasoning =
      not is_embed && not (any (λ h. occurs (text h) (lower (text model_id))) no_reasoning);
  supports_streaming = not is_embed;
  price = price_for prices (text model_id);
  enabled = true;
}

abbrev pub infer_each : Prices → String → Bool → List String → List Row
infer_each prices provider is_embed [] = []
infer_each prices provider is_embed (m ∷ ms) =
    infer_row prices provider m is_embed ∷ infer_each prices provider is_embed ms

-- The parsed catalog file: each provider's chat and embedding models.
abbrev pub Document : Type 0
Document = List (String × Option (List String × List String))

unfoldable pub document_rows : Prices → Document → List Row
unfolding infer_row
document_rows prices [] = []
document_rows prices ((provider, none) ∷ cat) = document_rows prices cat
document_rows prices ((provider, some (chat, embedding)) ∷ cat) =
    infer_each prices provider false chat
    ++ infer_each prices provider true embedding
    ++ document_rows prices cat

-- `load_catalog_rows`
abbrev pub load_catalog_rows : Prices → Option Document → List Row
load_catalog_rows prices none = []
load_catalog_rows prices (some cat) = document_rows prices cat

-- `seed_catalog_if_empty`: how many rows it adds, the table and the cache after it.
unfoldable pub seed_catalog_if_empty :
    Prices → Option Document → List Row → Cache → ℕ × List Row × Cache
unfolding document_rows invalidate_catalog_cache
seed_catalog_if_empty prices file table c =
    let rows = load_catalog_rows prices file in
    if is_empty rows || not (is_empty table)
    then (0, table, c)
    else (length rows, rows, invalidate_catalog_cache c)
