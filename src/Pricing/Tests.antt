-- ===== src/Pricing/Tests.antt =====
-- Prices, records and tables of a few rows, and the theorems at them.
use cpa_helper_s.Prelude.{
  true, ℕ, ◌+◌, ◌*◌, ◌^◌, ◌≤◌, ◌<◌, ◌≡◌, ◌≢◌, inl, refl, true, false, none, some, [], ◌∷◌, arith,
  length,
}
use cpa_helper_s.Prelude.Int.{pos}
use cpa_helper_s.Prelude.Text.{
  is_empty, codes, text_eq, ascii_lower, normal, trim_space, contains_text,
}
use cpa_helper_s.Errors.{ok}
use cpa_helper_s.Money.{finite}
use cpa_helper_s.Pricing.{
  ModelPrice, manual, litellm, UsageRecord, token, PriceMap, price_at, prices_by_key,
  find_matching_price, record_cost, billing_unit_for_model_ptr, is_claude_provider, price_key,
}
use cpa_helper_s.Money.{max_int64}
use cpa_helper_s.Pricing.Cost.{exact_cost, record_cost-nearest}
use cpa_helper_s.Pricing.Lookup.{
  Among, ListedAs, key_of, find_matching_price_sound, find_matching_price_complete,
}
use cpa_helper_s.Pricing.Table.{
  PriceTable, Payload, RawData, number, other, price_map, create_price, update_price, delete_price,
  sync_litellm_prices, without_litellm, validate_price_payload, row,
}
use cpa_helper_s.Pricing.Table.Sync.{sync_litellm_prices-keeps_manual}
use cpa_helper_s.Pricing.Table.Precedence.{price_map-synced}

-- 2 and 8 USD for a million tokens of input and output, cached input at the price of other input.
abbrev gpt : ModelPrice
gpt = record {
  id = 0;
  provider = codes "openai";
  model = codes "gpt";
  input_per_million = 2 * 10 ^ 12;
  output_per_million = 8 * 10 ^ 12;
  cache_read_per_million = 2 * 10 ^ 12;
  cache_creation_per_million = 0;
  request_price = none;
  source = manual;
  source_model = none;
  auto_synced = false;
}

abbrev imported_gpt : ModelPrice
imported_gpt = record gpt {
  id = 1;
  model = codes "GPT";
  source = litellm;
  source_model = some (codes "GPT");
  auto_synced = true;
}

abbrev usage : UsageRecord
usage = record {
  id = 7;
  timestamp = 0;
  usage_username = some (codes "ann");
  provider = some (codes "Codex");
  model = some (codes "gpt");
  failed = false;
  input_tokens = pos 100;
  output_tokens = pos 10;
  cached_tokens = pos 40;
  cache_read_tokens = pos 0;
  cache_creation_tokens = pos 0;
  reasoning_tokens = pos 0;
  total_tokens = pos 110;
}

abbrev table : PriceTable
table = record { rows = gpt ∷ []; next_id = 1 }

abbrev mixed : PriceTable
mixed = record { rows = gpt ∷ imported_gpt ∷ []; next_id = 2 }

abbrev prices : PriceMap
prices = prices_by_key ascii_lower (gpt ∷ [])

usage-price : find_matching_price ascii_lower prices usage.provider usage.model ≡ some gpt
unfolding find_matching_price prices_by_key ascii_lower trim_space text_eq price_key
usage-price = refl

usage-unit : billing_unit_for_model_ptr ascii_lower usage.model ≡ token
unfolding billing_unit_for_model_ptr ascii_lower trim_space contains_text
usage-unit = refl

usage-vendor : is_claude_provider ascii_lower usage.provider ≡ false
unfolding is_claude_provider ascii_lower trim_space text_eq
usage-vendor = refl

small_sum : exact_cost ascii_lower usage prices gpt < max_int64 * 10 ^ 10
unfolding is_claude_provider ascii_lower trim_space text_eq
small_sum = omega arith

record_cost-nearest_example :
    let exact = exact_cost ascii_lower usage prices gpt in
    (2 * ((record_cost ascii_lower usage prices).0 * 10 ^ 10) ≤ 2 * exact + 10 ^ 10)
    × (2 * exact ≤ 2 * ((record_cost ascii_lower usage prices).0 * 10 ^ 10) + 10 ^ 10)
record_cost-nearest_example =
    record_cost-nearest ascii_lower usage prices gpt usage-unit usage-price small_sum

find_matching_price_sound_example :
    Among gpt (gpt ∷ [])
    × (normal ascii_lower gpt.model ≡ normal ascii_lower (codes "gpt"))
    × ListedAs ascii_lower (normal ascii_lower gpt.provider) (normal ascii_lower (codes "Codex"))
find_matching_price_sound_example =
    find_matching_price_sound ascii_lower (gpt ∷ []) (codes "Codex") (codes "gpt") gpt usage-price

provider-named : is_empty (normal ascii_lower (codes "openai")) ≡ false
unfolding ascii_lower trim_space
provider-named = refl

other-named : is_empty (normal ascii_lower (codes "other")) ≡ false
unfolding ascii_lower trim_space
other-named = refl

other-price :
    find_matching_price ascii_lower
      (prices_by_key ascii_lower (gpt ∷ []))
      (some (codes "openai"))
      (some (codes "other"))
    ≡ none
unfolding find_matching_price prices_by_key ascii_lower trim_space text_eq price_key
other-price = refl

find_matching_price_complete_example :
    normal ascii_lower gpt.model ≢ normal ascii_lower (codes "other")
find_matching_price_complete_example =
    find_matching_price_complete ascii_lower (gpt ∷ []) (codes "openai") (codes "other")
      provider-named other-named other-price gpt (inl refl) refl

-- A request for a price of "claude" by hand.
abbrev payload : Payload
payload = record {
  provider = codes " anthropic ";
  model = codes "opus";
  input_per_million = finite (pos 15);
  output_per_million = finite (pos 75);
  cache_read_per_million = finite (pos 0);
  cache_creation_per_million = finite (pos 0);
  request_price = none;
}

abbrev opus : ℕ → ModelPrice
opus id = record gpt {
  id = id;
  provider = codes "anthropic";
  model = codes "opus";
  input_per_million = 15;
  output_per_million = 75;
  cache_read_per_million = 0;
}

create-opus :
    create_price table payload ≡ ok (record { rows = gpt ∷ opus 1 ∷ []; next_id = 2 }, opus 1)
unfolding create_price validate_price_payload row trim_space text_eq
create-opus = refl

update-opus : update_price table 0 payload ≡ ok (record { rows = opus 0 ∷ []; next_id = 1 }, opus 0)
unfolding update_price validate_price_payload row trim_space text_eq
update-opus = refl

delete-gpt : delete_price table 0 ≡ ok (record { rows = []; next_id = 1 })
unfolding delete_price
delete-gpt = refl

-- A list with one entry under a free name and one that is no price.
abbrev raw : RawData
raw =
    (
      codes "gpt-mini",
      some record {
        litellm_provider = codes "openai";
        input_cost_per_token = number (pos 3);
        output_cost_per_token = number (pos 6);
        cache_read_input_token_cost = other;
        cache_creation_input_token_cost = other;
      },
    )
    ∷ (codes "sample_spec", none)
    ∷ []

sync_litellm_prices-keeps_manual_example :
    let (u, report) = sync_litellm_prices ascii_lower length (λ s. none) mixed raw in
    (without_litellm u.rows ≡ without_litellm mixed.rows)
    × (report.imported + report.skipped_manual + report.skipped_invalid ≡ report.total_entries)
    × (report.total_entries ≡ length raw)
sync_litellm_prices-keeps_manual_example =
    sync_litellm_prices-keeps_manual ascii_lower length (λ s. none) mixed raw

-- The row made by hand for "gpt" gives way to the imported one for "GPT".
price_map-synced_example :
    (z : ModelPrice) × (price_at (key_of ascii_lower imported_gpt) (price_map ascii_lower mixed)
      ≡ some z)
    × (z.auto_synced ≡ true)
    × (key_of ascii_lower imported_gpt ≡ key_of ascii_lower z)
price_map-synced_example = price_map-synced ascii_lower mixed imported_gpt (inl refl)
