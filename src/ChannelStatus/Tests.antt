-- ===== src/ChannelStatus/Tests.antt =====
-- A pool of two accounts, and the theorems at it.
use cpa_helper_s.Prelude.{
  ℕ, ◌*◌, ◌≤◌, ◌<◌, ◌≡◌, refl, true, false, not, ◌||◌, ◌&&◌, none, some, List, [], ◌∷◌, ltb,
}
use cpa_helper_s.Prelude.Int.{pos}
use cpa_helper_s.Prelude.Text.{codes}
use cpa_helper_s.ChannelStatus.{
  Account, Item, RecentRequest, disabled, error, normal, degraded, apply_channel_account_stats,
  apply_channel_recent_request_status,
}
use cpa_helper_s.ChannelStatus.Requests.{
  number_of, has_failed, has_succeeded, apply_channel_recent_request_status-available,
}
use cpa_helper_s.ChannelStatus.Health.{counted, usable, apply_channel_account_stats-health}

abbrev half_used : Account
half_used = record {
  is_disabled = false;
  last_status_code = some 200;
  primary_used_percent = some (pos 50);
  secondary_used_percent = none;
  antigravity_account = false;
  antigravity_primary = none;
  antigravity_secondary = none;
  last_checked_at = some 9;
  last_healthy_at = some 9;
}

abbrev pool : List Account
pool = half_used ∷ record half_used { last_status_code = some 500 } ∷ []

abbrev blank : Item
blank = record {
  enabled = true;
  status = none;
  available = false;
  account_count = 0;
  available_accounts = 0;
  disabled_accounts = 0;
  error_accounts = 0;
  quota_exhausted_accounts = 0;
  status_code = none;
  primary_remaining_percent = none;
  secondary_remaining_percent = none;
  last_checked_at = none;
  last_healthy_at = none;
  recent_requests = [];
}

pool-status : (apply_channel_account_stats blank pool).status ≡ some degraded
unfolding apply_channel_account_stats
pool-status = refl

pool-share : (apply_channel_account_stats blank pool).primary_remaining_percent ≡ some 50
unfolding apply_channel_account_stats
pool-share = refl

apply_channel_account_stats-health_example :
    let j = apply_channel_account_stats blank pool in
    (counted j ≡ 2)
    × (j.available_accounts ≡ usable pool)
    × (j.available ≡ (true && ltb 0 (usable pool)))
    × (true ≡ false → j.status ≡ some disabled)
    × ((p : ℕ) → j.primary_remaining_percent ≡ some p → p ≤ 100)
    × ((p : ℕ) → j.secondary_remaining_percent ≡ some p → p ≤ 100)
apply_channel_account_stats-health_example =
    apply_channel_account_stats-health blank pool (refl, refl, refl, refl, refl)

abbrev tried : Item
tried = record blank {
  status = some normal;
  available = true;
  recent_requests =
      record { id = 1; timestamp = codes "t"; failed = true }
      ∷ record { id = 2; timestamp = codes " "; failed = false }
      ∷ [];
}

tried-status : (apply_channel_recent_request_status tried).status ≡ some error
unfolding apply_channel_recent_request_status
tried-status = refl

abbrev tries : List RecentRequest
tries =
    record { id = 1; timestamp = codes "t"; failed = true }
    ∷ record { id = 2; timestamp = codes " "; failed = false }
    ∷ []

apply_channel_recent_request_status-available_example :
    let k = record (apply_channel_account_stats blank pool) { recent_requests = tries } in
    let j = apply_channel_recent_request_status k in
    let s = number_of has_succeeded tries in
    let f = number_of has_failed tries in
    (j.available ≡ (true && ltb 0 (usable pool) && (ltb 0 k.error_accounts || not (ltb s f))))
    × (true ≡ false → j.status ≡ some disabled)
    × (true ≡ true
        → 0 < usable pool
        → k.error_accounts ≡ 0
        → (s < f → j.status ≡ some error)
          × (0 < s → 9 * f ≤ s → j.status ≡ some normal)
          × (f ≤ s → s < 9 * f → j.status ≡ some degraded))
apply_channel_recent_request_status-available_example =
    apply_channel_recent_request_status-available blank pool tries (refl, refl, refl, refl, refl)
