-- ===== src/Pricing/Table.antt =====
-- backend/internal/app/pricing.go: the table `model_prices`, unique in (provider, model), as the
-- handlers change it: prices made by hand, and the import of a LiteLLM price list. The statements of
-- one call are taken to succeed but for the constraint of the table, which
-- backend/migrations/202605160001_initial_schema.sql declares and SQLite checks, as it gives a new row
-- its number; time stamps are left out.
pub mod Sync
pub mod Precedence
pub mod Unique
pub mod Edits
use cpa_helper_s.Prelude.{
  ℕ, suc, ◌+◌, ◌*◌, ◌^◌, ◌≡◌, Bool, true, false, not, ◌&&◌, ◌||◌, List, [], ◌∷◌, ◌++◌, Option, none,
  some, ltb, leb, ◌==◌, if◌then◌else◌, map, length,
}
use cpa_helper_s.Prelude.Int.{ℤ, pos, negsuc}
use cpa_helper_s.Prelude.Text.{Text, codes, text_eq, is_empty, normal, trim_space}
use cpa_helper_s.Money.{Float, finite_non_negative, amount_of, math_round}
use cpa_helper_s.Errors.{Result, ok, err, ◌>>=◌, ◌>>◌, require, validation, conflict, not_found}
use cpa_helper_s.Pricing.{ModelPrice, PriceSource, manual, litellm, PriceMap, prices_by_key}

-- `modelPricePayload`.
pub record Payload : Type 0 where
  pub provider : Text
  pub model : Text
  pub input_per_million : Float
  pub output_per_million : Float
  pub cache_read_per_million : Float
  pub cache_creation_per_million : Float
  pub request_price : Option Float

abbrev pub optional_price_ok : Option Float → Bool
optional_price_ok none = true
optional_price_ok (some x) = finite_non_negative x

unfoldable pub validate_price_payload : Payload → Result Payload
validate_price_payload p = do
  let named = record p { provider = trim_space p.provider; model = trim_space p.model }
  require (not (is_empty named.provider || is_empty named.model)) validation
  require
      (finite_non_negative p.input_per_million
        && finite_non_negative p.output_per_million
        && finite_non_negative p.cache_read_per_million
        && finite_non_negative p.cache_creation_per_million
        && optional_price_ok p.request_price)
      validation
  ok named

-- The columns that a statement writes.
unfoldable pub row : ℕ → Payload → PriceSource → Option Text → Bool → ModelPrice
row id p source source_model auto_synced = record {
  id = id;
  provider = p.provider;
  model = p.model;
  input_per_million = amount_of p.input_per_million;
  output_per_million = amount_of p.output_per_million;
  cache_read_per_million = amount_of p.cache_read_per_million;
  cache_creation_per_million = amount_of p.cache_creation_per_million;
  request_price = (elim p.request_price [ none ↦ none | some x ↦ some (amount_of x) ]);
  source = source;
  source_model = source_model;
  auto_synced = auto_synced;
}

pub record PriceTable : Type 0 where
  pub rows : List ModelPrice
  pub next_id : ℕ

abbrev pub same_name : ModelPrice → ModelPrice → Bool
same_name x y = text_eq x.provider y.provider && text_eq x.model y.model

-- Whether SQLite refuses a row by `UNIQUE (provider, model)`, which the handlers answer as a conflict.
abbrev pub is_taken : ModelPrice → List ModelPrice → Bool
is_taken x [] = false
is_taken x (y ∷ ys) = same_name x y || is_taken x ys

unfoldable pub create_price : PriceTable → Payload → Result (PriceTable × ModelPrice)
unfolding row
create_price t payload = do
  p ← validate_price_payload payload
  let x = row t.next_id p manual none false
  require (not (is_taken x t.rows)) conflict
  ok (record { rows = t.rows ++ x ∷ []; next_id = suc t.next_id }, x)

abbrev pub has_id : ℕ → List ModelPrice → Bool
has_id id [] = false
has_id id (x ∷ xs) = x.id == id || has_id id xs

-- The rows but the one with this number.
abbrev pub others : ℕ → List ModelPrice → List ModelPrice
others id [] = []
others id (x ∷ xs) = if x.id == id then others id xs else x ∷ others id xs

abbrev pub replace : ModelPrice → List ModelPrice → List ModelPrice
replace y [] = []
replace y (x ∷ xs) = (if x.id == y.id then y else x) ∷ replace y xs

-- The constraint is checked only where a row is written.
unfoldable pub update_price : PriceTable → ℕ → Payload → Result (PriceTable × ModelPrice)
unfolding row
update_price t id payload = do
  p ← validate_price_payload payload
  let x = row id p manual none false
  require (not (has_id id t.rows && is_taken x (others id t.rows))) conflict
  require (has_id id t.rows) not_found
  ok (record t { rows = replace x t.rows }, x)

unfoldable pub delete_price : PriceTable → ℕ → Result PriceTable
delete_price t id = do
  require (has_id id t.rows) not_found
  ok (record t { rows = others id t.rows })

-- `getPrice`, by the number of the row.
abbrev pub find_price : ℕ → List ModelPrice → Result ModelPrice
find_price id [] = err not_found
find_price id (x ∷ xs) = if x.id == id then ok x else find_price id xs

unfoldable pub get_price : PriceTable → ℕ → Result ModelPrice
get_price t id = find_price id t.rows

-- `ORDER BY auto_synced ASC, …`: the synced rows stand behind the others. The order by name within
-- each part decides nothing in the map below, but between names that differ in case only.
abbrev pub not_synced : List ModelPrice → List ModelPrice
not_synced [] = []
not_synced (x ∷ xs) = if x.auto_synced then not_synced xs else x ∷ not_synced xs

abbrev pub synced : List ModelPrice → List ModelPrice
synced [] = []
synced (x ∷ xs) = if x.auto_synced then x ∷ synced xs else synced xs

unfoldable pub list_prices : PriceTable → List ModelPrice
list_prices t = not_synced t.rows ++ synced t.rows

unfoldable pub price_map : (ℕ → ℕ) → PriceTable → PriceMap
unfolding list_prices
price_map lower t = prices_by_key lower (list_prices t)

-- A value of the price list, in 1e-24 USD, so that a price per token is a multiple.
pub data Json : Type 0 where
  number : ℤ → Json
  string : Text → Json
  other : Json

-- The fields that are read of an entry that is an object; `litellm_provider` is printed by
-- `fmt.Sprint`.
pub record LiteLlmEntry : Type 0 where
  pub litellm_provider : Text
  pub input_cost_per_token : Json
  pub output_cost_per_token : Json
  pub cache_read_input_token_cost : Json
  pub cache_creation_input_token_cost : Json

abbrev pub RawData : Type 0
RawData = List (Text × Option LiteLlmEntry)

-- The answer of an import.
pub record SyncReport : Type 0 where
  pub total_entries : ℕ
  pub imported : ℕ
  pub skipped_manual : ℕ
  pub skipped_invalid : ℕ

abbrev pub without_litellm : List ModelPrice → List ModelPrice
without_litellm [] = []
without_litellm (x ∷ xs) = elim x.source [
  | litellm ↦ without_litellm xs
  | manual ↦ x ∷ without_litellm xs
]

-- The second loop: `INSERT OR IGNORE`, counted by `RowsAffected`.
unfoldable pub insert_or_ignore : PriceTable × SyncReport → Text × Payload → PriceTable × SyncReport
unfolding row
insert_or_ignore (t, r) (name, p) =
    let x = row t.next_id p litellm (some name) true in
    if is_taken x t.rows then (t, record r { skipped_manual = suc r.skipped_manual }) else (
      record { rows = t.rows ++ x ∷ []; next_id = suc t.next_id },
      record r { imported = suc r.imported },
    )

unfoldable pub insert_all :
    PriceTable × SyncReport → List (Text × Payload) → PriceTable × SyncReport
unfolding insert_or_ignore
insert_all s [] = s
insert_all s (p ∷ ps) = insert_all (insert_or_ignore s p) ps

-- `byte_length` is the length of a text in bytes, `parse_float` is `strconv.ParseFloat` for numbers.
module _ (lower : ℕ → ℕ) (byte_length : Text → ℕ) (parse_float : Text → Option ℤ) where
  abbrev pub numeric : Json → Option ℤ
  numeric (number n) = some n
  numeric (string s) = parse_float (trim_space s)
  numeric other = none

  unfoldable pub usd_per_million : Json → ℕ
  unfolding math_round
  usd_per_million value = elim (numeric value) [
    | none ↦ 0
    | some n ↦ (elim n [ pos k ↦ math_round (10 ^ 6) k | negsuc k ↦ 0 ])
  ]

  unfoldable pub litellm_entry_to_price : Text → Option LiteLlmEntry → Option Payload
  unfolding usd_per_million
  litellm_entry_to_price model_name none = none
  litellm_entry_to_price model_name (some e) =
      let provider = normal lower e.litellm_provider in
      let model = trim_space model_name in
      let input = usd_per_million e.input_cost_per_token in
      let output = usd_per_million e.output_cost_per_token in
      let cache_read = usd_per_million e.cache_read_input_token_cost in
      let cache_creation = usd_per_million e.cache_creation_input_token_cost in
      if is_empty provider
        || is_empty model
        || ltb 120 (byte_length provider)
        || ltb 180 (byte_length model)
      then none
      else if input == 0 && output == 0 && cache_read == 0 && cache_creation == 0
      then none
      else some (record {
        provider = provider;
        model = model;
        input_per_million = Float.finite (pos input);
        output_per_million = Float.finite (pos output);
        cache_read_per_million = Float.finite (pos cache_read);
        cache_creation_per_million = Float.finite (pos cache_creation);
        request_price = none;
      })

  -- The first loop: the rows to write, in the order in which the map is walked.
  unfoldable pub valid_rows : RawData → List (Text × Payload)
  unfolding litellm_entry_to_price
  valid_rows [] = []
  valid_rows ((name, e) ∷ raw) =
      if text_eq name (codes "sample_spec")
      then valid_rows raw
      else (elim (litellm_entry_to_price name e) [
        | none ↦ valid_rows raw
        | some p ↦ (name, p) ∷ valid_rows raw
      ])

  -- `skippedInvalid` of that loop.
  unfoldable pub count_invalid : RawData → ℕ
  unfolding litellm_entry_to_price
  count_invalid [] = 0
  count_invalid ((name, e) ∷ raw) =
      if text_eq name (codes "sample_spec")
      then suc (count_invalid raw)
      else (elim (litellm_entry_to_price name e) [
        | none ↦ suc (count_invalid raw)
        | some p ↦ count_invalid raw
      ])

  -- `DELETE … WHERE source = 'litellm'` and the inserts, in one transaction.
  unfoldable pub sync_litellm_prices : PriceTable → RawData → PriceTable × SyncReport
  unfolding insert_all
  sync_litellm_prices t raw =
      insert_all
        (
          record t { rows = without_litellm t.rows },
          record {
            total_entries = length raw;
            imported = 0;
            skipped_manual = 0;
            skipped_invalid = count_invalid raw;
          },
        )
        (valid_rows raw)
