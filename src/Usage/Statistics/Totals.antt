-- ===== src/Usage/Statistics/Totals.antt =====
-- backend/internal/app/usage.go: the points of a trend add up to the summary of the same records.
use cpa_helper_s.Prelude.{ℕ, ◌+◌, Bool, false, ◌||◌, List, [], ◌∷◌}
use cpa_helper_s.Prelude.Text.{Text, text_eq}
use cpa_helper_s.Pricing.{UsageRecord, PriceMap, usage_aggregate_total_tokens}
use cpa_helper_s.Usage.Statistics.{one_if, group_of}

-- Columns of records and of points, added up.
abbrev pub sum_by {ℓ} : {A : Type ℓ} → (A → ℕ) → List A → ℕ
sum_by f [] = 0
sum_by f (r ∷ rs) = f r + sum_by f rs

abbrev times : Text → List Text → ℕ
times t [] = 0
times t (u ∷ us) = one_if (text_eq t u) + times t us

module _ (key : UsageRecord → Text) where
  abbrev occurs : Text → List UsageRecord → Bool
  occurs t [] = false
  occurs t (r ∷ rs) = text_eq t (key r) || occurs t rs

  -- A column over the records of each name.
  abbrev names_sum : (UsageRecord → ℕ) → List UsageRecord → List Text → ℕ
  names_sum f rs [] = 0
  names_sum f rs (name ∷ names) = sum_by f (group_of key name rs) + names_sum f rs names

module _ (lower : ℕ → ℕ) (prices : PriceMap) where
  abbrev tokens_of : UsageRecord → ℕ
  tokens_of r = usage_aggregate_total_tokens lower r

  abbrev failure : UsageRecord → ℕ
  failure r = one_if r.failed

  abbrev one : UsageRecord → ℕ
  one r = 1
