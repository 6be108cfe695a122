-- ===== src/Quota.antt =====
-- backend/internal/app/quota.go: balances. This file has the rows and the functions of one row;
-- `Remote` has the CPA key list, `Operations` the methods of `App` over the database.
pub mod Remote
pub mod World
pub mod Operations
pub mod Charges
pub mod Neutral
pub mod Deduction
pub mod Rows
pub mod Charging
pub mod Ledger
mod Tests
use cpa_helper_s.Prelude.{
  ℕ, suc, ◌+◌, ◌-◌, ◌/◌, ◌^◌, Bool, true, false, not, ◌&&◌, ◌||◌, Option, none, some, List, ltb,
  leb, ◌==◌, if◌then◌else◌,
}
use cpa_helper_s.Prelude.Int.{ℤ, pos, negsuc}
use cpa_helper_s.Prelude.Text.{Text, text_eq}
use cpa_helper_s.Money.{Float, math_round, min_quota_amount, max_quota_amount}
use cpa_helper_s.Errors.{Result, ok, err, validation}

-- The columns of `users` that quotas read and write. Amounts in 1e-8 USD, times as numbers.
pub record UserRecord : Type 0 where
  pub id : ℕ
  pub username : Text
  pub disabled_at : Option ℕ
  pub lifetime : Option ℕ
  pub monthly : Option ℕ
  pub started_at : Option ℕ
  pub month : Text
  pub month_used : ℕ
  pub paused_at : Option ℕ
  pub pause_reason : Option Text
  pub sync_error : Option Text
  pub unpriced_records : ℕ

pub record UserApiKey : Type 0 where
  pub api_key_hash : Text
  pub user_id : ℕ
  pub api_key : Option Text

-- A row of `user_quota_charges`.
pub record Charge : Type 0 where
  pub usage_record_id : ℕ
  pub user_id : ℕ
  pub amount : ℕ
  pub monthly_deducted : ℕ
  pub lifetime_deducted : ℕ
  pub unpriced : Bool
  pub quota_month : Text

abbrev pub is_some {ℓ} : {A : Type ℓ} → Option A → Bool
is_some none = false
is_some (some a) = true

abbrev pub is_none {ℓ} : {A : Type ℓ} → Option A → Bool
is_none o = not (is_some o)

abbrev pub is_positive : Option ℕ → Bool
is_positive none = false
is_positive (some n) = ltb 0 n

unfoldable pub quota_is_unlimited : UserRecord → Bool
quota_is_unlimited u = is_none u.lifetime && is_none u.monthly

-- The difference, which may be negative, is rounded and bounded below by 0.
abbrev pub remaining_of : ℕ → Option ℕ → Option ℕ
remaining_of used none = none
remaining_of used (some quota) = some (if ltb quota used then 0 else quota - used)

unfoldable pub quota_monthly_remaining : UserRecord → Option ℕ
quota_monthly_remaining u = remaining_of u.month_used u.monthly

unfoldable pub quota_has_available : UserRecord → Bool
unfolding quota_is_unlimited quota_monthly_remaining
quota_has_available u =
    quota_is_unlimited u || is_positive (quota_monthly_remaining u) || is_positive u.lifetime

-- Not a number, infinite and negative amounts are refused; others are rounded to 1e-8 USD.
unfoldable pub normalized_quota_amount : Option Float → Result (Option ℕ)
unfolding math_round
normalized_quota_amount none = ok none
normalized_quota_amount (some (Float.finite (pos n))) = ok (some (math_round (10 ^ 4) n))
normalized_quota_amount (some (Float.finite (negsuc n))) = err validation
normalized_quota_amount (some Float.nan) = err validation
normalized_quota_amount (some Float.inf) = err validation
normalized_quota_amount (some Float.neg_inf) = err validation

abbrev pub or_zero : Option ℕ → ℕ
or_zero none = 0
or_zero (some n) = n

-- The balances after a charge, and what each gave.
pub record Deductions : Type 0 where
  pub monthly_deducted : ℕ
  pub lifetime_deducted : ℕ
  pub remaining : ℕ
  pub month_used : ℕ
  pub lifetime : Option ℕ

-- The first `if` of the deduction: the monthly balance pays first.
unfoldable pub deduct_monthly : UserRecord → ℕ → Deductions
unfolding quota_monthly_remaining
deduct_monthly u amount =
    let left = or_zero (quota_monthly_remaining u) in
    let paid = if ltb 0 left then min_quota_amount amount left else 0 in
    record {
      monthly_deducted = paid;
      lifetime_deducted = 0;
      remaining = amount - paid;
      month_used = u.month_used + paid;
      lifetime = u.lifetime;
    }

-- The second one.
abbrev pub deduct_from : Option ℕ → Deductions → Deductions
deduct_from none d = d
deduct_from (some balance) d =
    let paid = if ltb 0 balance then min_quota_amount d.remaining balance else 0 in
    record d {
      lifetime_deducted = paid;
      remaining = d.remaining - paid;
      lifetime = some (balance - paid);
    }

unfoldable pub deduct_lifetime : Deductions → Deductions
deduct_lifetime d = if ltb 0 d.remaining then deduct_from d.lifetime d else d

unfoldable pub deduct : UserRecord → ℕ → Bool → Deductions
deduct u amount unpriced =
    if not unpriced && ltb 0 amount then deduct_lifetime (deduct_monthly u amount) else record {
      monthly_deducted = 0;
      lifetime_deducted = 0;
      remaining = amount;
      month_used = u.month_used;
      lifetime = u.lifetime;
    }

-- `UserQuotaStatusResponse`.
pub record QuotaStatus : Type 0 where
  pub unlimited : Bool
  pub lifetime_quota : Option ℕ
  pub lifetime_remaining : Option ℕ
  pub monthly_quota : Option ℕ
  pub monthly_used : ℕ
  pub monthly_remaining : Option ℕ
  pub quota_month : Text
  pub paused : Bool
  pub paused_at : Option ℕ
  pub pause_reason : Option Text
  pub sync_error : Option Text
  pub unpriced_records : ℕ
  pub can_create_keys : Bool
  pub started_at : Option ℕ

unfoldable pub quota_status_from_user : UserRecord → QuotaStatus
unfolding quota_is_unlimited quota_monthly_remaining quota_has_available
quota_status_from_user u = record {
  unlimited = quota_is_unlimited u;
  lifetime_quota = u.lifetime;
  lifetime_remaining = (elim u.lifetime [ none ↦ none | some n ↦ some (max_quota_amount n 0) ]);
  monthly_quota = u.monthly;
  monthly_used = u.month_used;
  monthly_remaining = quota_monthly_remaining u;
  quota_month = u.month;
  paused = is_some u.paused_at;
  paused_at = u.paused_at;
  pause_reason = u.pause_reason;
  sync_error = u.sync_error;
  unpriced_records = u.unpriced_records;
  can_create_keys = is_none u.paused_at && quota_has_available u;
  started_at = u.started_at;
}
