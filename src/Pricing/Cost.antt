-- ===== src/Pricing/Cost.antt =====
-- What a usage record costs, on every branch of `recordCost`.
use cpa_helper_s.Prelude.{
  ℕ, ◌+◌, ◌-◌, ◌*◌, ◌/◌, ◌^◌, ◌≡◌, ◌≤◌, ◌<◌, ◌⊎◌, refl, ap, Bool, true, false, not, ◌&&◌, Option,
  none, some, ltb, if◌then◌else◌, arith, Option-cases,
}
use Prim.Native.Nat.{min}
use cpa_helper_s.Prelude.Int.{ℤ, pos, negsuc, ◌≤ℤ◌, pos_part}
use cpa_helper_s.Money.{math_round, max_int64}
use cpa_helper_s.Pricing.{
  ModelPrice, UsageRecord, PriceMap, record_cost, find_matching_price, billing_unit_for_model_ptr,
  token_amount, usage_aggregate_total_tokens, is_claude_provider, token, request, BillingUnit,
  bounded_tokens, bill, non_negative_tokens,
}

-- Rounding is to the nearest where the result is an int64: the result times the factor is off by half
-- a factor at most.
pub math_round_near :
    (factor value : ℕ)
    → 0 < factor
    → (value + factor / 2) / factor ≤ max_int64
    → (2 * (math_round factor value * factor) ≤ 2 * value + factor)
      × (2 * value ≤ 2 * (math_round factor value * factor) + factor)
unfolding math_round
math_round_near factor value h fits = grind arith

-- Rounding keeps the order.
math_round_mono : (a b : ℕ) → a ≤ b → math_round (10 ^ 10) a ≤ math_round (10 ^ 10) b
unfolding math_round
math_round_mono a b h = grind arith

abbrev pub is_request : BillingUnit → Bool
is_request request = true
is_request token = false

abbrev pub has_request_price : Option ModelPrice → Bool
has_request_price none = false
has_request_price (some p) = elim p.request_price [ none ↦ false | some usd ↦ true ]

abbrev pub is_none : Option ModelPrice → Bool
is_none none = true
is_none (some p) = false

price_cases : (o : Option ModelPrice) → (o ≡ none) ⊎ ((p : ModelPrice) × (o ≡ some p))
price_cases = Option-cases

output_mono :
    (a b : ℤ) (price : ℕ) → a ≤ℤ b → non_negative_tokens a * price ≤ non_negative_tokens b * price
output_mono (pos a) (pos b) price h = grind arith
output_mono (negsuc a) b price h = omega arith
output_mono (pos a) (negsuc b) price h = absurd (omega arith)

token_amount_mono :
    (lower : ℕ → ℕ) (r : UsageRecord) (more : ℤ) (p : ModelPrice)
    → r.output_tokens ≤ℤ more
    → token_amount lower r p ≤ token_amount lower (record r { output_tokens = more }) p
unfolding token_amount
token_amount_mono lower r more p h =
    ground (arith, output_mono r.output_tokens more p.output_per_million h)

bill_mono :
    (lower : ℕ → ℕ) (r : UsageRecord) (more : ℤ) (unit : BillingUnit) (price : Option ModelPrice)
    → r.output_tokens ≤ℤ more
    → (bill lower unit r price).0 ≤ (bill lower unit (record r { output_tokens = more }) price).0
unfolding bill
bill_mono lower r more request price h = omega arith
bill_mono lower r more token none h = omega arith
bill_mono lower r more token (some p) h =
    math_round_mono (token_amount lower r p) _ (token_amount_mono lower r more p h)

split_input :
    (tokens : ℤ) (input price : ℕ)
    → (input - bounded_tokens tokens input) * price + bounded_tokens tokens input * price
      ≡ input * price
unfolding bounded_tokens
split_input tokens input price =
    let c = bounded_tokens tokens input in
    let le : c ≤ input = ground arith in
    let whole : input - c + c ≡ input = omega arith in
    omega (arith, ap (λ (t : ℕ). t * price) whole)

token_amount_neutral :
    (lower : ℕ → ℕ) (r : UsageRecord) (cached : ℤ) (p : ModelPrice)
    → is_claude_provider lower r.provider ≡ false
    → p.cache_read_per_million ≡ p.input_per_million
    → token_amount lower (record r { cached_tokens = cached }) p ≡ token_amount lower r p
unfolding token_amount
token_amount_neutral lower r cached p other same =
    let input = non_negative_tokens r.input_tokens in
    rw (token_amount, other, same)
      (omega (
        arith,
        split_input cached input p.input_per_million,
        split_input r.cached_tokens input p.input_per_million,
      ))

bill_neutral :
    (lower : ℕ → ℕ) (r : UsageRecord) (cached : ℤ) (unit : BillingUnit) (p : ModelPrice)
    → is_claude_provider lower r.provider ≡ false
    → p.cache_read_per_million ≡ p.input_per_million
    → bill lower unit (record r { cached_tokens = cached }) (some p) ≡ bill lower unit r (some p)
unfolding bill
bill_neutral lower r cached request p other same = refl
bill_neutral lower r cached token p other same =
    ap (λ n. (math_round (10 ^ 10) n, false)) (token_amount_neutral lower r cached p other same)

module _ (lower : ℕ → ℕ) (r : UsageRecord) (prices : PriceMap) where
  -- A record counts as unpriced exactly if its model is billed by the request, the request did not
  -- fail and the price found (if any) has no request price; or it is billed by tokens, used some and
  -- no price is found. An unpriced record costs nothing.
  record_cost-unpriced :
      let price = find_matching_price lower prices r.provider r.model in
      let by_request = is_request (billing_unit_for_model_ptr lower r.model) in
      ((record_cost lower r prices).1 ≡ (
        if by_request
        then not r.failed && not (has_request_price price)
        else is_none price && ltb 0 (usage_aggregate_total_tokens lower r)))
      × ((record_cost lower r prices).1 ≡ true → (record_cost lower r prices).0 ≡ 0)
  unfolding record_cost
  record_cost-unpriced =
      ground (arith, price_cases (find_matching_price lower prices r.provider r.model))

  -- The exact sum, in 1e-18 USD.
  abbrev pub exact_cost : ModelPrice → ℕ
  exact_cost p =
      let input = pos_part r.input_tokens in
      let cached = min (pos_part r.cached_tokens) input in
      if is_claude_provider lower r.provider
      then input * p.input_per_million
        + pos_part r.cache_read_tokens * p.cache_read_per_million
        + pos_part r.cache_creation_tokens * p.cache_creation_per_million
        + pos_part r.output_tokens * p.output_per_million
      else (input - cached) * p.input_per_million
        + cached * p.cache_read_per_million
        + pos_part r.output_tokens * p.output_per_million

  token_amount-eq : (p : ModelPrice) → token_amount lower r p ≡ exact_cost p
  unfolding token_amount bounded_tokens
  token_amount-eq p = ground arith

  -- A record of a model that is billed by tokens, for which a price is found, costs the exact sum
  -- rounded to the nearest 1e-8 USD, where that sum is below 2 ^ 63 - 1 of them: each token of a Claude record at the price of its kind; of any
  -- other record the cached tokens, at most all input tokens, at the cache price and the rest of the
  -- input at the input price. Negative counts are taken as 0.
  pub record_cost-nearest :
      (p : ModelPrice)
      → billing_unit_for_model_ptr lower r.model ≡ token
      → find_matching_price lower prices r.provider r.model ≡ some p
      → exact_cost p < max_int64 * 10 ^ 10
      → (2 * ((record_cost lower r prices).0 * 10 ^ 10) ≤ 2 * exact_cost p + 10 ^ 10)
        × (2 * exact_cost p ≤ 2 * ((record_cost lower r prices).0 * 10 ^ 10) + 10 ^ 10)
  unfolding record_cost
  record_cost-nearest p unit found small =
      rw (unit, found)
        (let same = token_amount-eq p in
          let fits : (token_amount lower r p + 10 ^ 10 / 2) / 10 ^ 10 ≤ max_int64 =
            omega (arith, same, small) in
          omega
            (arith, same, math_round_near (10 ^ 10) (token_amount lower r p) (omega arith) fits))

  -- Where reading the cache costs as much as other input, the number of cached tokens that the
  -- provider reports, wrong or not, does not change the cost of a record that is not Claude's.
  record_cost-cache_neutral :
      (p : ModelPrice) (cached : ℤ)
      → find_matching_price lower prices r.provider r.model ≡ some p
      → is_claude_provider lower r.provider ≡ false
      → p.cache_read_per_million ≡ p.input_per_million
      → record_cost lower (record r { cached_tokens = cached }) prices ≡ record_cost lower r prices
  unfolding record_cost
  record_cost-cache_neutral p cached found other same =
      rw found (bill_neutral lower r cached (billing_unit_for_model_ptr lower r.model) p other same)

  -- More output tokens never cost less.
  record_cost-output_mono :
      (more : ℤ)
      → r.output_tokens ≤ℤ more
      → (record_cost lower r prices).0
        ≤ (record_cost lower (record r { output_tokens = more }) prices).0
  unfolding record_cost
  record_cost-output_mono more h =
      bill_mono lower r more (billing_unit_for_model_ptr lower r.model)
        (find_matching_price lower prices r.provider r.model) h
