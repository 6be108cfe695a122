-- ===== src/Pricing.antt =====
-- backend/internal/app/pricing.go: which price a usage record gets, and what it costs. `lower` is
-- `unicode.ToLower`, a table of the standard library.
pub mod Cost
pub mod Lookup
pub mod Table
mod Tests
use cpa_helper_s.Prelude.{
  ℕ, ◌+◌, ◌-◌, ◌*◌, ◌^◌, Bool, true, false, not, ◌&&◌, ◌||◌, List, [], ◌∷◌, ◌++◌, Option, none,
  some, ltb, leb, ◌==◌, if◌then◌else◌, map,
}
use cpa_helper_s.Prelude.Int.{ℤ, pos, negsuc}
use cpa_helper_s.Prelude.Text.{Text, codes, text_eq, is_empty, normal, contains_text, trim_space}
use cpa_helper_s.Money.{math_round}

pub data PriceSource : Type 0 where
  manual litellm : PriceSource

-- A row of `model_prices`, without its time stamps; prices in 1e-12 USD.
pub record ModelPrice : Type 0 where
  pub id : ℕ
  pub provider : Text
  pub model : Text
  pub input_per_million : ℕ
  pub output_per_million : ℕ
  pub cache_read_per_million : ℕ
  pub cache_creation_per_million : ℕ
  pub request_price : Option ℕ
  pub source : PriceSource
  pub source_model : Option Text
  pub auto_synced : Bool

-- The fields of a `UsageRecord` that billing reads.
pub record UsageRecord : Type 0 where
  pub id : ℕ
  pub timestamp : ℕ
  pub usage_username : Option Text
  pub provider : Option Text
  pub model : Option Text
  pub failed : Bool
  pub input_tokens : ℤ
  pub output_tokens : ℤ
  pub cached_tokens : ℤ
  pub cache_read_tokens : ℤ
  pub cache_creation_tokens : ℤ
  pub reasoning_tokens : ℤ
  pub total_tokens : ℤ

abbrev pub Key : Type 0
Key = Text × Text

abbrev pub key_eq : Key → Key → Bool
key_eq (p, m) (q, n) = text_eq p q && text_eq m n

-- A Go map as an association list: the last write to a key stands first.
abbrev pub PriceMap : Type 0
PriceMap = List (Key × ModelPrice)

unfoldable pub price_at : Key → PriceMap → Option ModelPrice
price_at k [] = none
price_at k ((j, p) ∷ m) = if key_eq j k then some p else price_at k m

abbrev pub non_negative_tokens : ℤ → ℕ
non_negative_tokens (pos n) = n
non_negative_tokens (negsuc n) = 0

unfoldable pub bounded_tokens : ℤ → ℕ → ℕ
bounded_tokens tokens max =
    if ltb max (non_negative_tokens tokens) then max else non_negative_tokens tokens

-- In 1e-18 USD.
abbrev pub million_token_cost : ℕ → ℕ → ℕ
million_token_cost tokens usd_per_million = tokens * usd_per_million

pub data BillingUnit : Type 0 where
  token request : BillingUnit

abbrev pub or_else : Option ModelPrice → Option ModelPrice → Option ModelPrice
or_else none o = o
or_else (some p) o = some p

-- The loop over the candidates.
unfoldable pub first_price : PriceMap → Text → List Text → Option ModelPrice
unfolding price_at
first_price prices model [] = none
first_price prices model (c ∷ cs) =
    or_else (price_at (c, model) prices) (first_price prices model cs)

module _ (lower : ℕ → ℕ) where
  pub price_key : Text → Text → Key
  price_key provider model = (normal lower provider, normal lower model)

  -- The loop of `pricesByKey` and of `priceMap`.
  pub fill_map : PriceMap → List ModelPrice → PriceMap
  fill_map m [] = m
  fill_map m (p ∷ ps) = fill_map ((price_key p.provider p.model, p) ∷ m) ps

  pub prices_by_key : List ModelPrice → PriceMap
  unfolding fill_map
  prices_by_key = fill_map []

  -- The candidates, in order: the provider, and the name under which its vendor is listed.
  pub price_candidates : Text → List Text
  price_candidates provider =
      provider
      ∷ ((if text_eq provider (codes "codex") then codes "openai" ∷ [] else [])
          ++ (if text_eq provider (codes "claude") then codes "anthropic" ∷ [] else []))

  unfoldable pub find_matching_price : PriceMap → Option Text → Option Text → Option ModelPrice
  unfolding first_price price_candidates
  find_matching_price prices none model = none
  find_matching_price prices (some provider) none = none
  find_matching_price prices (some provider) (some model) =
      if is_empty (normal lower provider) || is_empty (normal lower model)
      then none
      else first_price prices (normal lower model) (price_candidates (normal lower provider))

  unfoldable pub is_claude_provider : Option Text → Bool
  is_claude_provider none = false
  is_claude_provider (some provider) =
      text_eq (normal lower provider) (codes "claude")
      || text_eq (normal lower provider) (codes "anthropic")

  unfoldable pub billing_unit_for_model : Text → BillingUnit
  billing_unit_for_model model =
      if contains_text (normal lower model) (codes "image") then request else token

  unfoldable pub billing_unit_for_model_ptr : Option Text → BillingUnit
  unfolding billing_unit_for_model
  billing_unit_for_model_ptr none = token
  billing_unit_for_model_ptr (some model) = billing_unit_for_model model

  unfoldable pub usage_aggregate_input_tokens : UsageRecord → ℕ
  unfolding is_claude_provider
  usage_aggregate_input_tokens r =
      if is_claude_provider r.provider
      then non_negative_tokens r.input_tokens
        + non_negative_tokens r.cache_read_tokens
        + non_negative_tokens r.cache_creation_tokens
      else non_negative_tokens r.input_tokens

  unfoldable pub usage_aggregate_total_tokens : UsageRecord → ℕ
  unfolding usage_aggregate_input_tokens
  usage_aggregate_total_tokens r =
      if is_claude_provider r.provider
      then usage_aggregate_input_tokens r
        + non_negative_tokens r.output_tokens
        + non_negative_tokens r.reasoning_tokens
      else non_negative_tokens r.total_tokens

  -- The sum that `recordCost` rounds, in 1e-18 USD.
  unfoldable pub token_amount : UsageRecord → ModelPrice → ℕ
  unfolding bounded_tokens
  token_amount r p =
      let input = non_negative_tokens r.input_tokens in
      let output = non_negative_tokens r.output_tokens in
      let cache_read = bounded_tokens r.cached_tokens input in
      if is_claude_provider r.provider
      then million_token_cost input p.input_per_million
        + million_token_cost (non_negative_tokens r.cache_read_tokens) p.cache_read_per_million
        + million_token_cost (non_negative_tokens r.cache_creation_tokens)
            p.cache_creation_per_million
        + million_token_cost output p.output_per_million
      else million_token_cost (input - cache_read) p.input_per_million
        + million_token_cost cache_read p.cache_read_per_million
        + million_token_cost output p.output_per_million

  -- A model that is billed by the request.
  unfoldable pub request_cost : Bool → Option ModelPrice → ℕ × Bool
  unfolding math_round
  request_cost true price = (0, false)
  request_cost false none = (0, true)
  request_cost false (some p) = elim p.request_price [
    | none ↦ (0, true)
    | some usd ↦ (math_round (10 ^ 4) usd, false)
  ]

  unfoldable pub token_cost : UsageRecord → Option ModelPrice → ℕ × Bool
  unfolding math_round token_amount
  token_cost r none = (0, ltb 0 (usage_aggregate_total_tokens r))
  token_cost r (some p) = (math_round (10 ^ 10) (token_amount r p), false)

  -- The two halves of `recordCost`, by the unit that the model is billed by.
  unfoldable pub bill : BillingUnit → UsageRecord → Option ModelPrice → ℕ × Bool
  unfolding request_cost token_cost
  bill request r price = request_cost r.failed price
  bill token r price = token_cost r price

  -- The cost in 1e-8 USD, and whether the record has no price.
  unfoldable pub record_cost : UsageRecord → PriceMap → ℕ × Bool
  unfolding bill
  record_cost r prices =
      bill (billing_unit_for_model_ptr r.model) r (find_matching_price prices r.provider r.model)

  unfoldable pub model_price_ready_for_billing : Option ModelPrice → Text → Bool
  unfolding billing_unit_for_model
  model_price_ready_for_billing none fallback_model = false
  model_price_ready_for_billing (some p) fallback_model =
      let model = if is_empty (trim_space p.model) then fallback_model else p.model in
      elim (billing_unit_for_model model) [
        | request ↦ (elim p.request_price [ none ↦ false | some usd ↦ true ])
        | token ↦ true
      ]
