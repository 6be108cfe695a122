-- ===== src/SignIn/Tests.antt =====
-- One key with four failures, and the theorems at it.
use cpa_helper_s.Prelude.{
  ◌+◌, ◌-◌, ◌*◌, ◌^◌, ◌≤◌, ◌≡◌, refl, not, none, some, [], ◌∷◌, arith, ltb, if◌then◌else◌, length,
}
use cpa_helper_s.Prelude.Text.{Text, codes, text_eq}
use cpa_helper_s.SignIn.{
  LoginAttemptState, Attempts, find_attempt, login_attempt_allowed, record_login_failure,
  delay_after,
}
use cpa_helper_s.SignIn.Blocking.{length-record_login_failure, record_login_failure-blocks}

abbrev ann : Text
ann = codes "ann"

abbrev four : LoginAttemptState
four = record { failures = 4; last_attempt = 100; blocked_until = none }

abbrev attempts : Attempts
attempts = (ann, four) ∷ []

-- The seventh failure blocks for two minutes.
seventh : delay_after 2 ≡ 120 * 10 ^ 9
unfolding delay_after
seventh = refl

ann-found : find_attempt ann attempts ≡ some four
unfolding text_eq
ann-found = refl

length-record_login_failure_example : length (record_login_failure attempts ann 200) ≤ 4096
length-record_login_failure_example = length-record_login_failure attempts ann 200 (omega arith)

record_login_failure-blocks_example :
    (login_attempt_allowed (record_login_failure attempts ann 200) ann 5000).1
    ≡ not (
        ltb 5000 (
          200
          + (if ltb (900 * 10 ^ 9) (30 * 10 ^ 9 * 2 ^ (4 - 4))
              then 900 * 10 ^ 9
              else 30 * 10 ^ 9 * 2 ^ (4 - 4))))
record_login_failure-blocks_example =
    record_login_failure-blocks attempts ann 200 four (omega arith) ann-found refl (omega arith)
      5000
