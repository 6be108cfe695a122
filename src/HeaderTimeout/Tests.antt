-- ===== src/HeaderTimeout/Tests.antt =====
-- The theorems at one service and two targets.
use cpa_helper_s.Prelude.{◌+◌, ◌≤◌, ◌<◌, ◌≡◌, refl, true, [], ◌∷◌}
use cpa_helper_s.Prelude.Int.{pos, negsuc}
use cpa_helper_s.Prelude.Text.{Text, codes, ascii_lower, trim_space}
use cpa_helper_s.HeaderTimeout.{
  CpaConfig, Cache, Target, trim_slashes, normalize_cpa_url, effective_response_header_timeout,
}
use cpa_helper_s.HeaderTimeout.Bounds.{effective_response_header_timeout-bounds}

abbrev slow : CpaConfig
slow = record {
  keepalive_seconds = pos 100;
  bootstrap_retries = negsuc 4;
  nonstream_keepalive_interval = pos 7000;
}

-- An hour, the margin, and no retries.
slow-timeout : effective_response_header_timeout slow ≡ 3630
unfolding effective_response_header_timeout
slow-timeout = refl

effective_response_header_timeout-bounds_example :
    let t = effective_response_header_timeout slow in
    (30 ≤ t)
    × (t ≤ 3690)
    × (0 < 100 → 100 ≤ 3600 → 100 + 30 ≤ t)
    × (0 < 7000 → 7000 ≤ 3600 → 7000 + 30 ≤ t)
effective_response_header_timeout-bounds_example = effective_response_header_timeout-bounds slow

abbrev target : Target
target = record { cpa_url = codes " http://CPA/ "; management_key = codes "k" }

abbrev same_target : Target
same_target = record { cpa_url = codes "http://cpa"; management_key = codes "other" }

abbrev stale : Cache
stale = (codes "http://cpa", record { config = slow; synced = true; expires_at = 40 }) ∷ []

same-url :
    normalize_cpa_url ascii_lower same_target.cpa_url ≡ normalize_cpa_url ascii_lower target.cpa_url
unfolding normalize_cpa_url ascii_lower trim_space trim_slashes
same-url = refl
