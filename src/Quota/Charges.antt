-- ===== src/Quota/Charges.antt =====
-- backend/internal/app/quota.go: charging a usage record, and the balances that an administrator sets.
use cpa_helper_s.Prelude.{
  ℕ, suc, Bool, not, ◌&&◌, ◌||◌, Option, none, some, [], ◌∷◌, ◌++◌, ltb, if◌then◌else◌,
}
use cpa_helper_s.Prelude.Text.{Text, text_eq, is_empty, trim_space}
use cpa_helper_s.Money.{Float}
use cpa_helper_s.Errors.{Result, ok}
use cpa_helper_s.Pricing.{UsageRecord, PriceMap, record_cost}
use cpa_helper_s.Quota.{
  UserRecord, Charge, QuotaStatus, is_some, quota_is_unlimited, quota_has_available,
  normalized_quota_amount, Deductions, deduct,
}
use cpa_helper_s.Quota.Remote.{Cpa}
use cpa_helper_s.Quota.World.{
  M, exhausted_reason, find_username, get_user, ignore_error, is_charged, non_blank, return, update,
  update_user, ◌>>=◌, ◌>>◌,
}
use cpa_helper_s.Quota.Operations.{
  ensure_quota_month, pause_user_keys_for_quota, restore_quota_paused_user_if_available,
  user_quota_status,
}

module _ (cpa : Cpa) (hash_api_key : Text → Text) (month_of : ℕ → Text) (now : ℕ) where
  -- The row and the charge that the transaction of `applyQuotaCharge` writes.
  abbrev pub charged_row : UserRecord → Deductions → Bool → UserRecord
  charged_row u d unpriced = record u {
    month_used = d.month_used;
    lifetime = d.lifetime;
    unpriced_records = (if unpriced then suc u.unpriced_records else u.unpriced_records);
  }

  abbrev pub charge_of : UserRecord → UsageRecord → ℕ → Deductions → Bool → Charge
  charge_of u r amount d unpriced = record {
    usage_record_id = r.id;
    user_id = u.id;
    amount = amount;
    monthly_deducted = d.monthly_deducted;
    lifetime_deducted = d.lifetime_deducted;
    unpriced = unpriced;
    quota_month = non_blank u.month (month_of r.timestamp);
  }

  -- `UPDATE users SET quota_month_used_usd = ?, quota_lifetime_usd = ?, quota_unpriced_records = ?`
  abbrev pub write_balances : UserRecord → UserRecord → UserRecord
  write_balances new u = record u {
    month_used = new.month_used;
    lifetime = new.lifetime;
    unpriced_records = new.unpriced_records;
  }

  -- The deduction, the transaction and the pause at the end.
  unfoldable pub charge_now : UserRecord → UsageRecord → ℕ × Bool → M cpa (Unit {0})
  unfolding deduct pause_user_keys_for_quota
  charge_now u r (amount, unpriced) w =
      let d = deduct u amount unpriced in
      let new = charged_row u d unpriced in
      let v = record w {
        users = update_user u.id (write_balances new) w.users;
        charges = w.charges ++ charge_of u r amount d unpriced ∷ [];
      } in
      if ltb 0 d.remaining || not (quota_has_available new)
      then ignore_error
          ((pause_user_keys_for_quota cpa hash_api_key month_of now) u.id exhausted_reason) v
      else (v, ok tt)

  -- `lower` is `unicode.ToLower`; `prices` is the price map that is loaded.
  unfoldable pub charge_user : (ℕ → ℕ) → PriceMap → UsageRecord → UserRecord → M cpa (Unit {0})
  unfolding ensure_quota_month restore_quota_paused_user_if_available charge_now
  charge_user lower prices r u = do
    v ← (ensure_quota_month cpa hash_api_key month_of now) u
    if quota_is_unlimited v
        then (if is_some v.paused_at
            then ignore_error
                ((restore_quota_paused_user_if_available cpa hash_api_key month_of now) v.id)
            else return tt)
        else (λ w.
            if is_charged r.id w.charges
            then (w, ok tt)
            else charge_now v r (record_cost lower r prices) w)

  abbrev pub charge_found : (ℕ → ℕ) → PriceMap → UsageRecord → Option UserRecord → M cpa (Unit {0})
  charge_found lower prices r none = return tt
  charge_found lower prices r (some u) = charge_user lower prices r u

  abbrev pub charge_named : (ℕ → ℕ) → PriceMap → UsageRecord → Option Text → M cpa (Unit {0})
  charge_named lower prices r none w = (w, ok tt)
  charge_named lower prices r (some name) w =
      if is_empty (trim_space name)
      then (w, ok tt)
      else charge_found lower prices r (find_username name w.users) w

  unfoldable pub apply_quota_charge : (ℕ → ℕ) → PriceMap → UsageRecord → M cpa (Unit {0})
  unfolding charge_user
  apply_quota_charge lower prices r = charge_named lower prices r r.usage_username

  -- `userQuotaPayload` after `normalizedQuotaAmount`.
  abbrev pub quota_row : Option ℕ → Option ℕ → UserRecord → UserRecord → UserRecord
  quota_row lifetime monthly u old =
      let current = month_of now in
      record old {
        lifetime = lifetime;
        monthly = monthly;
        started_at =
            (if is_some lifetime || is_some monthly
              then (elim u.started_at [ none ↦ some now | some t ↦ some t ])
              else none);
        month = (if is_some monthly then current else []);
        month_used =
            (if is_some monthly && is_some u.monthly && text_eq u.month current
              then u.month_used
              else 0);
        sync_error = none;
      }

  abbrev pub lift : {A : Type 0} → Result A → M cpa A
  lift r w = (w, r)

  unfoldable pub update_user_quota : ℕ → Option Float → Option Float → M cpa QuotaStatus
  unfolding get_user restore_quota_paused_user_if_available pause_user_keys_for_quota
      user_quota_status
  update_user_quota id lifetime_quota monthly_quota = do
    u ← get_user cpa id
    lifetime ← lift (normalized_quota_amount lifetime_quota)
    monthly ← lift (normalized_quota_amount monthly_quota)
    update cpa id (quota_row lifetime monthly u)
    v ← get_user cpa id
    if quota_has_available v
        then ignore_error
            ((restore_quota_paused_user_if_available cpa hash_api_key month_of now) v.id)
        else ignore_error
            ((pause_user_keys_for_quota cpa hash_api_key month_of now) v.id exhausted_reason)
    (user_quota_status cpa hash_api_key month_of now) id
