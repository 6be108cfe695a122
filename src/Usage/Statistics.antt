-- ===== src/Usage/Statistics.antt =====
-- backend/internal/app/usage.go: the summary, the trend and the distributions of usage records, and
-- the pages of a list. Times are in seconds; `bucket` names the hour or the day of a time. A map from
-- names to records is the list of its names, in the order in which they first occur, which the trend
-- then sorts. The average time to the first token is left out.
pub mod Totals
use cpa_helper_s.Prelude.{
  ℕ, zero, suc, ◌+◌, ◌-◌, ◌%◌, ◌^◌, ◌*◌, Bool, true, false, not, ◌&&◌, ◌||◌, Option, none, some,
  List, [], ◌∷◌, ltb, leb, ◌==◌, if◌then◌else◌, length, take, drop, map,
}
use cpa_helper_s.Prelude.Int.{ℤ, pos, ◌+ℤ◌}
use cpa_helper_s.Prelude.Text.{Text, codes, text_eq, is_empty, trim_space}
use cpa_helper_s.Pricing.{
  UsageRecord, PriceMap, record_cost, usage_aggregate_input_tokens, usage_aggregate_total_tokens,
}

pub record Summary : Type 0 where
  pub total_records : ℕ
  pub failed_records : ℕ
  pub input_tokens : ℕ
  pub output_tokens : ℤ
  pub cached_tokens : ℤ
  pub reasoning_tokens : ℤ
  pub total_tokens : ℕ
  pub estimated_cost : ℕ
  pub unpriced_records : ℕ

pub record Point : Type 0 where
  pub bucket : Text
  pub records : ℕ
  pub failed_records : ℕ
  pub total_tokens : ℕ
  pub estimated_cost : ℕ

pub record DistributionItem : Type 0 where
  pub key : Text
  pub records : ℕ
  pub total_tokens : ℕ
  pub estimated_cost : ℕ

-- The bounds of `UsageFilters`.
pub record Range : Type 0 where
  pub start : Option ℕ
  pub end_time : Option ℕ

abbrev pub one_if : Bool → ℕ
one_if true = 1
one_if false = 0

-- `valueOr`.
unfoldable pub value_or : Option Text → Text → Text
value_or none fallback = fallback
value_or (some t) fallback = if is_empty (trim_space t) then fallback else t

-- Byte-wise, as `sort.Strings` compares.
abbrev pub text_less : Text → Text → Bool
text_less a [] = false
text_less [] (d ∷ ds) = true
text_less (c ∷ cs) (d ∷ ds) = if c == d then text_less cs ds else ltb c d

abbrev pub insert_text : Text → List Text → List Text
insert_text t [] = t ∷ []
insert_text t (u ∷ us) = if text_less u t then u ∷ insert_text t us else t ∷ u ∷ us

abbrev pub sort_texts : List Text → List Text
sort_texts [] = []
sort_texts (t ∷ ts) = insert_text t (sort_texts ts)

abbrev pub is_among : Text → List Text → Bool
is_among t [] = false
is_among t (u ∷ us) = text_eq t u || is_among t us

-- The names of the groups, and the records of one.
abbrev pub group_keys : (UsageRecord → Text) → List UsageRecord → List Text
group_keys key [] = []
group_keys key (r ∷ rs) =
    let rest = group_keys key rs in if is_among (key r) rest then rest else key r ∷ rest

abbrev pub group_of : (UsageRecord → Text) → Text → List UsageRecord → List UsageRecord
group_of key name [] = []
group_of key name (r ∷ rs) =
    let rest = group_of key name rs in if text_eq (key r) name then r ∷ rest else rest

-- `duration <= 48*time.Hour`, where the duration is a day without both bounds.
abbrev pub is_short_between : Option ℕ → Option ℕ → Bool
is_short_between (some s) (some e) = leb (e - s) (48 * 3600)
is_short_between _ _ = true

abbrev pub is_short : Range → Bool
is_short range = is_short_between range.start range.end_time

module _ (lower : ℕ → ℕ) where
  abbrev pub cost_of : PriceMap → UsageRecord → ℕ
  cost_of prices r = (record_cost lower r prices).0

  abbrev pub empty_summary : Summary
  empty_summary = record {
    total_records = 0;
    failed_records = 0;
    input_tokens = 0;
    output_tokens = pos 0;
    cached_tokens = pos 0;
    reasoning_tokens = pos 0;
    total_tokens = 0;
    estimated_cost = 0;
    unpriced_records = 0;
  }

  abbrev pub summed : PriceMap → Summary → UsageRecord → Summary
  summed prices s r = record {
    total_records = s.total_records + 1;
    failed_records = s.failed_records + one_if r.failed;
    input_tokens = s.input_tokens + usage_aggregate_input_tokens lower r;
    output_tokens = s.output_tokens +ℤ r.output_tokens;
    cached_tokens = s.cached_tokens +ℤ r.cached_tokens;
    reasoning_tokens = s.reasoning_tokens +ℤ r.reasoning_tokens;
    total_tokens = s.total_tokens + usage_aggregate_total_tokens lower r;
    estimated_cost = s.estimated_cost + cost_of prices r;
    unpriced_records = s.unpriced_records + one_if (record_cost lower r prices).1;
  }

  abbrev pub sum_onto : PriceMap → Summary → List UsageRecord → Summary
  sum_onto prices s [] = s
  sum_onto prices s (r ∷ rs) = sum_onto prices (summed prices s r) rs

  unfoldable pub usage_summary_from_records : List UsageRecord → PriceMap → Summary
  unfolding record_cost usage_aggregate_input_tokens usage_aggregate_total_tokens ◌+ℤ◌
  usage_summary_from_records rs prices = sum_onto prices empty_summary rs

  abbrev pub added : PriceMap → Point → UsageRecord → Point
  added prices p r = record p {
    records = p.records + 1;
    failed_records = p.failed_records + one_if r.failed;
    total_tokens = p.total_tokens + usage_aggregate_total_tokens lower r;
    estimated_cost = p.estimated_cost + cost_of prices r;
  }

  abbrev pub add_onto : PriceMap → Point → List UsageRecord → Point
  add_onto prices p [] = p
  add_onto prices p (r ∷ rs) = add_onto prices (added prices p r) rs

  abbrev pub point_of : PriceMap → Text → List UsageRecord → Point
  point_of prices name rs =
      add_onto prices
        (record {
          bucket = name;
          records = 0;
          failed_records = 0;
          total_tokens = 0;
          estimated_cost = 0;
        })
        rs

  abbrev pub points_of : PriceMap → (UsageRecord → Text) → List UsageRecord → List Text → List Point
  points_of prices key rs [] = []
  points_of prices key rs (name ∷ names) =
      point_of prices name (group_of key name rs) ∷ points_of prices key rs names

  unfoldable pub trend_points_from_records :
      (Bool → ℕ → Text) → Range → List UsageRecord → PriceMap → List Point
  unfolding record_cost usage_aggregate_total_tokens
  trend_points_from_records bucket range rs prices =
      let key = λ (r : UsageRecord). bucket (is_short range) r.timestamp in
      points_of prices key rs (sort_texts (group_keys key rs))

  -- The items of a distribution, before they are sorted by their records and cut at 20.
  abbrev pub distribution_item : PriceMap → Text → List UsageRecord → DistributionItem
  distribution_item prices name rs =
      let p = point_of prices name rs in
      record {
        key = name;
        records = p.records;
        total_tokens = p.total_tokens;
        estimated_cost = p.estimated_cost;
      }

  abbrev pub items_of :
      PriceMap → (UsageRecord → Text) → List UsageRecord → List Text → List DistributionItem
  items_of prices key rs [] = []
  items_of prices key rs (name ∷ names) =
      distribution_item prices name (group_of key name rs) ∷ items_of prices key rs names

-- `sort.Slice` by records, the most first, as an insertion sort: of items with as many records the
-- order is the map's, which is any.
abbrev pub insert_item : DistributionItem → List DistributionItem → List DistributionItem
insert_item i [] = i ∷ []
insert_item i (j ∷ js) = if ltb j.records i.records then i ∷ j ∷ js else j ∷ insert_item i js

abbrev pub sort_items : List DistributionItem → List DistributionItem
sort_items [] = []
sort_items (i ∷ is) = insert_item i (sort_items is)

module _ (lower : ℕ → ℕ) where
  unfoldable pub distribution_items :
      List UsageRecord → PriceMap → (UsageRecord → Text) → List DistributionItem
  unfolding record_cost usage_aggregate_total_tokens
  distribution_items rs prices key =
      take 20 (sort_items (items_of lower prices key rs (group_keys key rs)))

-- A page of the records in the order in which this call's statement gives them, where equal times come
-- in any order. The offset wraps as an int: a negative one is none to SQLite, and where `filtered` (the
-- records are filtered after the query) the slice panics and nothing is shown.
abbrev pub negative_page {ℓ} : {A : Type ℓ} → Bool → List A → ℕ → List A
negative_page true records page_size = []
negative_page false records page_size = take page_size records

unfoldable pub paged_usage_records {ℓ} : {A : Type ℓ} → Bool → List A → ℕ → ℕ → List A
paged_usage_records filtered records page page_size =
    let start = (page - 1) * page_size % 2 ^ 64 in
    if leb (2 ^ 63) start
    then negative_page filtered records page_size
    else if leb (length records) start
    then []
    else take page_size (drop start records)
