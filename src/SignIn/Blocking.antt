-- ===== src/SignIn/Blocking.antt =====
-- Whom the limit turns away, and how large the map may get.
use cpa_helper_s.Prelude.{
  ℕ, suc, ◌+◌, ◌-◌, ◌*◌, ◌^◌, ◌≤◌, ◌<◌, ◌≡◌, refl, Bool, true, false, not, ◌||◌, none, some, [],
  ◌∷◌, arith, ltb, leb, if◌then◌else◌, length,
}
use cpa_helper_s.Prelude.Text.{Text, text_eq, text_eq_iff}
use cpa_helper_s.SignIn.{
  LoginAttemptState, login_attempt_capacity, Attempts, find_attempt, delete_attempt, put_attempt,
  is_over, login_attempt_allowed, recent_attempt, failed_attempt, oldest_key,
  evict_oldest_login_attempt, record_login_failure,
}
use cpa_helper_s.SignIn.Backoff.{delay_after_lem}

find-put :
    (key : Text) (s : LoginAttemptState) (a : Attempts)
    → find_attempt key (put_attempt key s a) ≡ some s
find-put key s [] = ground (arith, text_eq_iff key key)
find-put key s ((k, t) ∷ a) = ground (arith, find-put key s a, text_eq_iff key key)

find-delete : (key : Text) (a : Attempts) → find_attempt key (delete_attempt key a) ≡ none
find-delete key [] = refl
find-delete key ((k, t) ∷ a) = ground (arith, find-delete key a)

length-put :
    (key : Text) (s : LoginAttemptState) (a : Attempts)
    → length (put_attempt key s a) ≤ suc (length a)
length-put key s [] = omega arith
length-put key s ((k, t) ∷ a) = ground (arith, length-put key s a)

length-delete_le : (key : Text) (a : Attempts) → length (delete_attempt key a) ≤ length a
length-delete_le key [] = omega arith
length-delete_le key ((k, t) ∷ a) = ground (arith, length-delete_le key a)

abbrev has_attempt : Text → Attempts → Bool
has_attempt key [] = false
has_attempt key ((k, s) ∷ a) = text_eq k key || has_attempt key a

length-delete :
    (key : Text) (a : Attempts)
    → has_attempt key a ≡ true
    → length (delete_attempt key a) < length a
length-delete key [] h = ground (arith, h)
length-delete key ((k, s) ∷ a) h = ground (arith, h, length-delete key a, length-delete_le key a)

has-pick :
    (b : Bool) (x y : Text) (a : Attempts)
    → has_attempt x a ≡ true
    → has_attempt y a ≡ true
    → has_attempt (if b then x else y) a ≡ true
has-pick true x y a h g = h
has-pick false x y a h g = g

has-oldest_key :
    (k : Text) (time : ℕ) (t : LoginAttemptState) (a : Attempts)
    → has_attempt (oldest_key k time a) ((k, t) ∷ a) ≡ true
has-oldest_key k time t [] = ground (arith, text_eq_iff k k)
has-oldest_key k time t ((j, s) ∷ a) =
    has-pick (ltb s.last_attempt time) (oldest_key j s.last_attempt a) (oldest_key k time a)
      ((k, t) ∷ (j, s) ∷ a) (ground (arith, has-oldest_key j s.last_attempt s a))
      (ground (arith, has-oldest_key k time t a))

length-evict : (a : Attempts) → 0 < length a → length (evict_oldest_login_attempt a) < length a
unfolding evict_oldest_login_attempt
length-evict [] h = ground (arith, h)
length-evict ((k, s) ∷ a) h =
    length-delete (oldest_key k s.last_attempt a) ((k, s) ∷ a) (has-oldest_key k s.last_attempt s a)

-- A failure never takes the map of attempts past its capacity of 4096.
pub length-record_login_failure :
    (a : Attempts) (key : Text) (now : ℕ)
    → length a ≤ 4096
    → length (record_login_failure a key now) ≤ 4096
unfolding record_login_failure
length-record_login_failure a key now h =
    let b = put_attempt key (failed_attempt (recent_attempt now (find_attempt key a)) now) a in
    ground (
      arith,
      length-put key (failed_attempt (recent_attempt now (find_attempt key a)) now) a,
      length-evict b,
    )

recorded :
    (a : Attempts) (key : Text) (now : ℕ) (s : LoginAttemptState)
    → length a < 4096
    → find_attempt key a ≡ some s
    → is_over s now ≡ false
    → find_attempt key (record_login_failure a key now) ≡ some (failed_attempt s now)
unfolding record_login_failure
recorded a key now s h e o =
    let b = put_attempt key (failed_attempt s now) a in
    let small : ltb login_attempt_capacity (length b) ≡ false =
      ground (arith, h, length-put key (failed_attempt s now) a) in
    rw (e, o, small) (find-put key (failed_attempt s now) a)

if_blocked :
    (b : Bool) (x y : Attempts)
    → (if◌then◌else◌ {A = Attempts × Bool} b (x, false) (y, true)).1 ≡ not b
if_blocked true x y = refl
if_blocked false x y = refl

-- While the map is not full: a failure within 15 minutes of at least four earlier ones in a row blocks
-- the key for 30 seconds, twice as long for each failure past the fifth, and at most 15 minutes; it is
-- turned away exactly until then.
pub record_login_failure-blocks :
    (a : Attempts) (key : Text) (now : ℕ) (s : LoginAttemptState)
    → length a < 4096
    → find_attempt key a ≡ some s
    → is_over s now ≡ false
    → 4 ≤ s.failures
    → (later : ℕ)
    → (login_attempt_allowed (record_login_failure a key now) key later).1
      ≡ not (
          ltb later (
            now
            + (if ltb (900 * 10 ^ 9) (30 * 10 ^ 9 * 2 ^ (s.failures - 4))
                then 900 * 10 ^ 9
                else 30 * 10 ^ 9 * 2 ^ (s.failures - 4))))
unfolding login_attempt_allowed failed_attempt
record_login_failure-blocks a key now s h e o f later =
    let many : leb 5 (suc s.failures) ≡ true = ground (arith, f) in
    let past : suc s.failures - 5 ≡ s.failures - 4 = omega (arith, f) in
    rw (recorded a key now s h e o, many, past, delay_after_lem (s.failures - 4))
      (if_blocked _ (record_login_failure a key now) _)
