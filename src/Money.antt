-- ===== src/Money.antt =====
-- Amounts of money. The program keeps them as float64; here they are exact multiples of a unit, so
-- that rounding is the only inexact step: balances and costs count 1e-8 USD, prices 1e-12 USD (per
-- million tokens, or per request), products of a price and a number of tokens 1e-18 USD.
use cpa_helper_s.Prelude.{ℕ, ◌+◌, ◌-◌, ◌/◌, ◌^◌, Bool, true, false, ltb, if◌then◌else◌}
use cpa_helper_s.Prelude.Int.{ℤ, pos}

-- A float64 that a client sends, as a multiple of 1e-12.
pub data Float : Type 0 where
  nan inf neg_inf : Float
  finite : ℤ → Float

-- `finiteNonNegative`.
abbrev pub finite_non_negative : Float → Bool
finite_non_negative (finite (pos n)) = true
finite_non_negative _ = false

-- The number of a float that passed `finiteNonNegative`.
abbrev pub amount_of : Float → ℕ
amount_of (finite (pos n)) = n
amount_of _ = 0

abbrev pub max_int64 : ℕ
max_int64 = 2 ^ 63 - 1

-- `int64(x)` of a float that is not negative. Past the largest int64 Go leaves the result to the
-- machine: this is what arm64 gives, where amd64 gives the least int64.
abbrev pub to_int64 : ℕ → ℕ
to_int64 x = if ltb max_int64 x then max_int64 else x

-- `mathRound` of a value that is not negative, from a unit to one `factor` times as large.
unfoldable pub math_round : ℕ → ℕ → ℕ
math_round factor value = to_int64 ((value + factor / 2) / factor)

-- `minQuotaAmount` and `maxQuotaAmount`, at multiples of 1e-8 USD.
abbrev pub min_quota_amount : ℕ → ℕ → ℕ
min_quota_amount left right = if ltb left right then left else right

abbrev pub max_quota_amount : ℕ → ℕ → ℕ
max_quota_amount left right = if ltb right left then left else right
