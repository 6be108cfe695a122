-- ===== src/Quota/Deduction.antt =====
-- What a charge takes from the two balances of a user.
use cpa_helper_s.Prelude.{ℕ, ◌+◌, ◌≤◌, ◌<◌, ◌≡◌, Bool, true, false, arith}
use cpa_helper_s.Quota.{
  UserRecord, Deductions, or_zero, is_some, quota_monthly_remaining, deduct_monthly,
  deduct_lifetime, deduct,
}

deduct_monthly_lem :
    (u : UserRecord) (amount : ℕ)
    → (amount ≡ (deduct_monthly u amount).monthly_deducted + (deduct_monthly u amount).remaining)
      × ((deduct_monthly u amount).month_used
          ≡ u.month_used + (deduct_monthly u amount).monthly_deducted)
      × ((deduct_monthly u amount).monthly_deducted ≤ or_zero (quota_monthly_remaining u))
      × (0 < (deduct_monthly u amount).remaining
          → (deduct_monthly u amount).monthly_deducted ≡ or_zero (quota_monthly_remaining u))
      × ((deduct_monthly u amount).lifetime ≡ u.lifetime)
      × ((deduct_monthly u amount).lifetime_deducted ≡ 0)
unfolding deduct_monthly
deduct_monthly_lem u amount = ground arith

deduct_lifetime_lem :
    (d : Deductions)
    → d.lifetime_deducted ≡ 0
    → let e = deduct_lifetime d in
      (e.monthly_deducted ≡ d.monthly_deducted)
      × (e.month_used ≡ d.month_used)
      × (e.lifetime_deducted + e.remaining ≡ d.remaining)
      × (or_zero e.lifetime + e.lifetime_deducted ≡ or_zero d.lifetime)
      × (is_some e.lifetime ≡ is_some d.lifetime)
      × (0 < e.remaining → or_zero e.lifetime ≡ 0)
unfolding deduct_lifetime
deduct_lifetime_lem d h = ground arith

-- A priced charge is paid in full or as far as the balances go: the month's balance pays first, the
-- lifetime balance only for what the month cannot, and something stays unpaid only when both are
-- used up. Each balance falls by exactly what it pays.
pub deduct_settles :
    (u : UserRecord) (amount : ℕ)
    → let left = or_zero (quota_monthly_remaining u) in
      let d = deduct u amount false in
      (d.monthly_deducted + d.lifetime_deducted + d.remaining ≡ amount)
      × (d.month_used ≡ u.month_used + d.monthly_deducted)
      × (d.monthly_deducted ≤ left)
      × (or_zero d.lifetime + d.lifetime_deducted ≡ or_zero u.lifetime)
      × (is_some d.lifetime ≡ is_some u.lifetime)
      × (0 < d.lifetime_deducted + d.remaining → d.monthly_deducted ≡ left)
      × (0 < d.remaining → or_zero d.lifetime ≡ 0)
unfolding deduct
deduct_settles u amount =
    let a = deduct_monthly_lem u amount in
    let b = deduct_lifetime_lem (deduct_monthly u amount) a.5 in ground arith

-- A record without a price takes nothing from either balance.
deduct_unpriced :
    (u : UserRecord) (amount : ℕ)
    → let d = deduct u amount true in
      (d.monthly_deducted + d.lifetime_deducted ≡ 0)
      × (d.month_used ≡ u.month_used)
      × (d.lifetime ≡ u.lifetime)
unfolding deduct
deduct_unpriced u amount = ground arith

-- Both together, for the ledger.
pub deduct_ledger :
    (u : UserRecord) (amount : ℕ) (unpriced : Bool)
    → let d = deduct u amount unpriced in
      (d.month_used ≡ u.month_used + d.monthly_deducted)
      × (or_zero d.lifetime + d.lifetime_deducted ≡ or_zero u.lifetime)
      × (is_some d.lifetime ≡ is_some u.lifetime)
deduct_ledger u amount false = let s = deduct_settles u amount in (s.1, s.3, s.4)
deduct_ledger u amount true = let s = deduct_unpriced u amount in ground arith
