-- ===== src/Quota/Tests.antt =====
-- A user with both balances, a service that keeps its keys in a list, and the theorems at them.
use cpa_helper_s.Prelude.{ℕ, ◌+◌, ◌≤◌, ◌<◌, ◌≡◌, refl, true, false, none, some, List, [], ◌∷◌}
use cpa_helper_s.Prelude.Int.{pos}
use cpa_helper_s.Prelude.Text.{Text, codes, ascii_lower}
use cpa_helper_s.Pricing.{UsageRecord, PriceMap}
use cpa_helper_s.Quota.{
  UserRecord, or_zero, is_some, quota_monthly_remaining, deduct, deduct_lifetime, deduct_monthly,
}
use cpa_helper_s.Quota.Remote.{Cpa, done}
use cpa_helper_s.Quota.World.{World}
use cpa_helper_s.Quota.Charges.{apply_quota_charge}
use cpa_helper_s.Quota.Neutral.{lifetime_left}
use cpa_helper_s.Quota.Deduction.{deduct_settles}
use cpa_helper_s.Quota.Ledger.{
  IsLedger, total, charge_all, charge_all-IsLedger, apply_quota_charge-again,
}

abbrev ann : UserRecord
ann = record {
  id = 3;
  username = codes "ann";
  disabled_at = none;
  lifetime = some 50;
  monthly = some 20;
  started_at = some 0;
  month = codes "2026-01";
  month_used = 5;
  paused_at = none;
  pause_reason = none;
  sync_error = none;
  unpriced_records = 0;
}

-- 15 are left for the month; of 40, the lifetime balance pays the other 25.
deduct-ann : (deduct ann 40 false).lifetime_deducted ≡ 25
unfolding deduct deduct_lifetime deduct_monthly
deduct-ann = refl

deduct_settles_example :
    let d = deduct ann 40 false in
    (d.monthly_deducted + d.lifetime_deducted + d.remaining ≡ 40)
    × (d.month_used ≡ 5 + d.monthly_deducted)
    × (d.monthly_deducted ≤ or_zero (quota_monthly_remaining ann))
    × (or_zero d.lifetime + d.lifetime_deducted ≡ 50)
    × (is_some d.lifetime ≡ true)
    × (0 < d.lifetime_deducted + d.remaining
        → d.monthly_deducted ≡ or_zero (quota_monthly_remaining ann))
    × (0 < d.remaining → or_zero d.lifetime ≡ 0)
deduct_settles_example = deduct_settles ann 40

abbrev listed : Cpa
listed = record {
  State = List Text;
  remote_api_keys = λ keys. done keys;
  put_remote_api_keys = λ keys new. (new, none);
  patch_remote_api_key = λ keys key. (keys, done true);
}

abbrev world : World listed
world = record {
  users = ann ∷ record ann { id = 4; username = codes "bob" } ∷ [];
  keys = record { api_key_hash = codes "k"; user_id = 3; api_key = some (codes "k") } ∷ [];
  charges = [];
  config = done (record { proxy_mode = false; has_management_key = true });
  remote = codes "k" ∷ [];
}

abbrev image : UsageRecord
image = record {
  id = 7;
  timestamp = 0;
  usage_username = some (codes "ann");
  provider = none;
  model = some (codes "image-1");
  failed = false;
  input_tokens = pos 0;
  output_tokens = pos 0;
  cached_tokens = pos 0;
  cache_read_tokens = pos 0;
  cache_creation_tokens = pos 0;
  reasoning_tokens = pos 0;
  total_tokens = pos 0;
}

abbrev month_of : ℕ → Text
month_of now = codes "2026-01"

world-IsLedger : IsLedger world
world-IsLedger = record { distinct_users = (refl, (refl, tt)); distinct_records = tt }

abbrev twice : List (ℕ × PriceMap × UsageRecord)
twice = (1, [], image) ∷ (2, [], image) ∷ []

charge_all-IsLedger_example :
    IsLedger (charge_all (λ k. k) month_of ascii_lower twice world)
    × ((i : ℕ) → total i (charge_all (λ k. k) month_of ascii_lower twice world) ≡ total i world)
charge_all-IsLedger_example =
    charge_all-IsLedger (λ k. k) month_of ascii_lower twice world world-IsLedger

abbrev charged : World listed
charged = record world {
  charges =
      record {
        usage_record_id = 7;
        user_id = 3;
        amount = 9;
        monthly_deducted = 9;
        lifetime_deducted = 0;
        unpriced = false;
        quota_month = codes "2026-01";
      }
      ∷ [];
}

apply_quota_charge-again_example :
    let v = (apply_quota_charge listed (λ k. k) month_of 5 ascii_lower [] image charged).0 in
    (v.charges ≡ charged.charges)
    × ((i : ℕ) → lifetime_left i v.users ≡ lifetime_left i charged.users)
apply_quota_charge-again_example =
    apply_quota_charge-again (λ k. k) month_of ascii_lower 5 [] image charged (refl, (refl, tt))
      refl
