-- ===== src/SignIn/Backoff.antt =====
-- How long a block is.
use cpa_helper_s.Prelude.{ℕ, zero, suc, ◌*◌, ◌^◌, ◌≡◌, refl, arith, ltb, if◌then◌else◌}
use native.Mathlib.Nat.{pow-suc}
use cpa_helper_s.SignIn.{login_block_base, login_block_max, longer, delay_after}

longer_lem :
    (m : ℕ)
    → longer (
        if ltb login_block_max (login_block_base * m)
        then login_block_max
        else login_block_base * m)
      ≡ (if ltb login_block_max (login_block_base * (m * 2))
          then login_block_max
          else login_block_base * (m * 2))
longer_lem m = ground arith

-- Each failure past the fifth doubles the block, which is 30 seconds after the fifth, up to 15 minutes.
pub delay_after_lem :
    (n : ℕ)
    → delay_after n ≡ (
        if ltb login_block_max (login_block_base * 2 ^ n)
        then login_block_max
        else login_block_base * 2 ^ n)
unfolding delay_after
delay_after_lem zero = refl
delay_after_lem (suc n) = rw (delay_after_lem n, pow-suc 2 n) (longer_lem (2 ^ n))
