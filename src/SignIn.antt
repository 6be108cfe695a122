-- ===== src/SignIn.antt =====
-- backend/internal/app/auth_settings.go: the limit on failed sign-ins. Times and durations are in
-- nanoseconds; the map of attempts is an association list, whose order is one that Go's `range` may
-- take. A stored attempt has a time, so that only a missing one has the zero time.
pub mod Backoff
pub mod Blocking
mod Tests
use cpa_helper_s.Prelude.{
  ℕ, zero, suc, ◌+◌, ◌-◌, ◌*◌, ◌^◌, Bool, true, false, not, ◌&&◌, ◌||◌, Option, none, some, List,
  [], ◌∷◌, ltb, leb, if◌then◌else◌, length,
}
use cpa_helper_s.Prelude.Text.{Text, text_eq}

pub record LoginAttemptState : Type 0 where
  pub failures : ℕ
  pub last_attempt : ℕ
  pub blocked_until : Option ℕ

abbrev pub login_attempt_capacity : ℕ
login_attempt_capacity = 4096

abbrev pub login_attempt_window : ℕ
login_attempt_window = 900 * 10 ^ 9

abbrev pub login_block_base : ℕ
login_block_base = 30 * 10 ^ 9

abbrev pub login_block_max : ℕ
login_block_max = 900 * 10 ^ 9

abbrev pub Attempts : Type 0
Attempts = List (Text × LoginAttemptState)

abbrev pub find_attempt : Text → Attempts → Option LoginAttemptState
find_attempt key [] = none
find_attempt key ((k, s) ∷ a) = if text_eq k key then some s else find_attempt key a

abbrev pub delete_attempt : Text → Attempts → Attempts
delete_attempt key [] = []
delete_attempt key ((k, s) ∷ a) =
    if text_eq k key then delete_attempt key a else (k, s) ∷ delete_attempt key a

abbrev pub put_attempt : Text → LoginAttemptState → Attempts → Attempts
put_attempt key s [] = (key, s) ∷ []
put_attempt key s ((k, t) ∷ a) =
    if text_eq k key then (key, s) ∷ a else (k, t) ∷ put_attempt key s a

-- `now.Sub(state.LastAttempt) > loginAttemptWindow || now.Before(state.LastAttempt)`
abbrev pub is_over : LoginAttemptState → ℕ → Bool
is_over s now = ltb (s.last_attempt + login_attempt_window) now || ltb now s.last_attempt

abbrev pub is_blocked : LoginAttemptState → ℕ → Bool
is_blocked s now = elim s.blocked_until [ none ↦ false | some t ↦ ltb now t ]

abbrev pub allowed_by : Text → ℕ → Attempts → Option LoginAttemptState → Attempts × Bool
allowed_by key now a none = (a, true)
allowed_by key now a (some s) =
    if is_blocked s now
    then (a, false)
    else (if is_over s now then delete_attempt key a else a, true)

unfoldable pub login_attempt_allowed : Attempts → Text → ℕ → Attempts × Bool
login_attempt_allowed a key now = allowed_by key now a (find_attempt key a)

-- The body of the loop on `delay`, which stays at the maximum.
abbrev pub longer : ℕ → ℕ
longer delay =
    if ltb delay login_block_max
    then (if leb login_block_max (delay * 2) then login_block_max else delay * 2)
    else delay

unfoldable pub delay_after : ℕ → ℕ
delay_after zero = login_block_base
delay_after (suc n) = longer (delay_after n)

abbrev pub fresh_attempt : LoginAttemptState
fresh_attempt = record { failures = 0; last_attempt = 0; blocked_until = none }

abbrev pub recent_attempt : ℕ → Option LoginAttemptState → LoginAttemptState
recent_attempt now none = fresh_attempt
recent_attempt now (some s) = if is_over s now then fresh_attempt else s

unfoldable pub failed_attempt : LoginAttemptState → ℕ → LoginAttemptState
unfolding delay_after
failed_attempt s now = record {
  failures = suc s.failures;
  last_attempt = now;
  blocked_until =
      (if leb 5 (suc s.failures)
        then some (now + delay_after (suc s.failures - 5))
        else s.blocked_until);
}

-- The loop of `evictOldestLoginAttemptLocked` over the rest of the map.
abbrev pub oldest_key : Text → ℕ → Attempts → Text
oldest_key key time [] = key
oldest_key key time ((k, s) ∷ a) =
    if ltb s.last_attempt time then oldest_key k s.last_attempt a else oldest_key key time a

unfoldable pub evict_oldest_login_attempt : Attempts → Attempts
evict_oldest_login_attempt [] = []
evict_oldest_login_attempt ((k, s) ∷ a) =
    delete_attempt (oldest_key k s.last_attempt a) ((k, s) ∷ a)

unfoldable pub record_login_failure : Attempts → Text → ℕ → Attempts
unfolding failed_attempt evict_oldest_login_attempt
record_login_failure a key now =
    let b = put_attempt key (failed_attempt (recent_attempt now (find_attempt key a)) now) a in
    if ltb login_attempt_capacity (length b) then evict_oldest_login_attempt b else b

unfoldable pub clear_login_failures : Attempts → Text → Attempts
clear_login_failures a key = delete_attempt key a
