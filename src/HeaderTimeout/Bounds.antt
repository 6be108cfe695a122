-- ===== src/HeaderTimeout/Bounds.antt =====
-- How long the wait may be.
use cpa_helper_s.Prelude.{ℕ, ◌+◌, ◌≤◌, ◌<◌, ◌≡◌, arith}
use cpa_helper_s.Prelude.Int.{ℤ, pos, negsuc}
use cpa_helper_s.HeaderTimeout.{
  CpaConfig, positive_part, max_positive_int, min_positive_int, bounded_retries,
  effective_response_header_timeout,
}

max_positive_int_lem :
    (a b : ℤ) → (positive_part a ≤ max_positive_int a b) × (positive_part b ≤ max_positive_int a b)
unfolding max_positive_int
max_positive_int_lem a b = ground arith

min_positive_int_lem :
    (v m : ℕ)
    → (min_positive_int v m ≤ m)
      × (min_positive_int v m ≤ v)
      × (v ≤ m → min_positive_int v m ≡ v)
      × (m < v → min_positive_int v m ≡ m)
unfolding min_positive_int
min_positive_int_lem v m = ground arith

bounded_retries_lem : (r : ℤ) → bounded_retries r ≤ 12
unfolding bounded_retries
bounded_retries_lem (pos n) = ground arith
bounded_retries_lem (negsuc n) = omega arith

-- Whatever the service says, the wait is between 30 and 3690 seconds; and it is at least 30 seconds
-- longer than each of the two keep-alive intervals that is positive and at most an hour.
pub effective_response_header_timeout-bounds :
    (c : CpaConfig)
    → let t = effective_response_header_timeout c in
      let a = positive_part c.keepalive_seconds in
      let b = positive_part c.nonstream_keepalive_interval in
      (30 ≤ t) × (t ≤ 3690) × (0 < a → a ≤ 3600 → a + 30 ≤ t) × (0 < b → b ≤ 3600 → b + 30 ≤ t)
unfolding effective_response_header_timeout
effective_response_header_timeout-bounds c =
    let m = max_positive_int c.keepalive_seconds c.nonstream_keepalive_interval in
    ground (
      arith,
      max_positive_int_lem c.keepalive_seconds c.nonstream_keepalive_interval,
      min_positive_int_lem m 3600,
      bounded_retries_lem c.bootstrap_retries,
    )
