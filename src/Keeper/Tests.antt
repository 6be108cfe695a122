-- ===== src/Keeper/Tests.antt =====
-- A short day of the keeper, and the theorems at it.
use cpa_helper_s.Prelude.{
  ℕ, ◌≤◌, ◌≡◌, refl, true, false, List, [], ◌∷◌, ◌||◌, length, ◌==◌, map, if◌then◌else◌,
}
use cpa_helper_s.Prelude.Text.{Text, codes, trim_space, text_eq}
use cpa_helper_s.Errors.{ok, err, validation}
use cpa_helper_s.Keeper.{
  daemon, once, accounts, KeeperRunner, finished, new_keeper_runner, mark_running, finish_run,
  try_lock_auth_name, in_flight, has_mode, mentions, normalize_keeper_auth_names,
  keeper_modes_conflict, mode_order,
}
use cpa_helper_s.Keeper.Modes.{IsConsistent}
use cpa_helper_s.Keeper.Locks.{
  held, Reachable, at_start, then_step, starts, locks, Reachable-IsConsistent,
  Reachable-IsExclusive, finish_run-restarts,
}
use cpa_helper_s.Keeper.Names.{any_blank, times, normalize_keeper_auth_names_lem}

abbrev fresh : KeeperRunner ℕ
fresh = new_keeper_runner 0

abbrev scheduled : KeeperRunner ℕ
scheduled = (mark_running 0 fresh daemon 1).0

abbrev both : KeeperRunner ℕ
both = (mark_running 0 scheduled accounts 2).0

-- A manual inspection waits for the scheduled one, a manual refresh does not.
no_overlap : (mark_running 0 scheduled once 2).1 ≡ false
unfolding mark_running keeper_modes_conflict
no_overlap = refl

overlap : (mark_running 0 scheduled accounts 2).1 ≡ true
unfolding mark_running keeper_modes_conflict
overlap = refl

lock-free : (try_lock_auth_name 0 both daemon (codes " a.json")).1 ≡ true
unfolding try_lock_auth_name mark_running keeper_modes_conflict trim_space
lock-free = refl

abbrev locked : KeeperRunner ℕ
locked = (try_lock_auth_name 0 both daemon (codes " a.json")).0

day : Reachable 0 (locked, codes " a.json" ∷ [])
day =
    then_step
      (then_step (then_step (at_start) (starts fresh [] daemon 1)) (starts scheduled [] accounts 2))
      (locks both [] daemon (codes " a.json") lock-free)

Reachable-IsConsistent_example : IsConsistent locked × (length locked.running_modes ≤ 3)
Reachable-IsConsistent_example = Reachable-IsConsistent 0 day

Reachable-IsExclusive_example :
    held (codes "a.json") (codes " a.json" ∷ [])
    ≡ (if in_flight (codes "a.json") locked.in_flight_auths then 1 else 0)
Reachable-IsExclusive_example = Reachable-IsExclusive 0 day (codes "a.json") refl

both-daemon : has_mode daemon both.running_modes ≡ true
unfolding mark_running keeper_modes_conflict mode_order
both-daemon = refl

both-IsConsistent : IsConsistent both
both-IsConsistent =
    (Reachable-IsConsistent 0 (
      then_step (then_step (at_start) (starts fresh [] daemon 1))
        (starts scheduled [] accounts 2))).0

finish_run-restarts_example :
    (mark_running 0 (finish_run 0 both daemon 3 9 (finished [])) daemon 4).1 ≡ true
finish_run-restarts_example =
    finish_run-restarts 0 both daemon 3 4 9 (finished []) both-IsConsistent both-daemon

abbrev wanted : List Text
wanted = codes "a" ∷ codes " b " ∷ codes "a " ∷ []

wanted-names : normalize_keeper_auth_names wanted ≡ ok (codes "a" ∷ codes "b" ∷ [])
unfolding normalize_keeper_auth_names trim_space text_eq
wanted-names = refl

normalize_keeper_auth_names_lem_example :
    (any_blank wanted || length wanted == 0 ≡ true
      → normalize_keeper_auth_names wanted ≡ err validation)
    × (any_blank wanted || length wanted == 0 ≡ false
        → (result : List Text) × (normalize_keeper_auth_names wanted ≡ ok result)
          × ((n : Text)
              → (times n result ≤ 1) × (mentions n result ≡ mentions n (map trim_space wanted))))
normalize_keeper_auth_names_lem_example = normalize_keeper_auth_names_lem wanted
