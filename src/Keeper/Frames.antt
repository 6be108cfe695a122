-- ===== src/Keeper/Frames.antt =====
-- What each method of the runner leaves alone.
use cpa_helper_s.Prelude.{
  ℕ, ◌≡◌, refl, true, false, some, List, arith, ltb, length, Bool-cases, inl, inr,
}
use cpa_helper_s.Prelude.Text.{Text, is_empty, trim_space}
use cpa_helper_s.Keeper.{
  Mode, KeeperRunner, RunResult, any_conflict, in_flight, finished, stopped, end_state, delete_mode,
  running_mode_list, mark_running, finish_run, try_lock_auth_name, unlock_auth_name,
}
use cpa_helper_s.Keeper.Modes.{IsConsistent}

module _ {Stats : Type 0} (no_stats : Stats) where
  with_auths-IsConsistent :
      (r : KeeperRunner Stats) (ls : List (Text × Mode))
      → IsConsistent r
      → IsConsistent (record r { in_flight_auths = ls })
  with_auths-IsConsistent r ls c = record {
    compatible = c.compatible;
    is_running = c.is_running;
    status = c.status;
  }

  pub lock-IsConsistent :
      (r : KeeperRunner Stats) (m : Mode) (name : Text)
      → IsConsistent r
      → IsConsistent (try_lock_auth_name no_stats r m name).0
  unfolding try_lock_auth_name
  lock-IsConsistent r m name c = elim (Bool-cases (is_empty (trim_space name))) [
    | inl e ↦ rw e c
    | inr e ↦ rw e (elim (Bool-cases (in_flight (trim_space name) r.in_flight_auths)) [
      | inl f ↦ rw f c
      | inr f ↦ rw f (with_auths-IsConsistent r _ c)
    ])
  ]

  pub unlock-IsConsistent :
      (r : KeeperRunner Stats) (name : Text)
      → IsConsistent r
      → IsConsistent (unlock_auth_name no_stats r name)
  unfolding unlock_auth_name
  unlock-IsConsistent r name c = elim (Bool-cases (is_empty (trim_space name))) [
    | inl e ↦ rw e c
    | inr e ↦ rw e (with_auths-IsConsistent r _ c)
  ]

  pub mark_running-auths :
      (r : KeeperRunner Stats) (m : Mode) (now : ℕ)
      → (mark_running no_stats r m now).0.in_flight_auths ≡ r.in_flight_auths
  unfolding mark_running
  mark_running-auths r m now = ground arith

  end_state-auths :
      (r : KeeperRunner Stats) (m : Mode) (result : RunResult)
      → (end_state no_stats r m result).in_flight_auths ≡ r.in_flight_auths
  end_state-auths r m (finished d) = refl
  end_state-auths r m (stopped d) = refl

  pub finish_run-auths :
      (r : KeeperRunner Stats) (m : Mode) (now : ℕ) (stats : Stats) (result : RunResult)
      → (finish_run no_stats r m now stats result).in_flight_auths ≡ r.in_flight_auths
  unfolding finish_run
  finish_run-auths r m now stats result =
      elim (Bool-cases (ltb 0 (length (running_mode_list (delete_mode m r.running_modes))))) [
        | inl e ↦ rw e refl
        | inr e ↦ rw e (
            end_state-auths
              (record r {
                running_modes = delete_mode m r.running_modes;
                is_running = false;
                last_finished_at = some now;
                stats = stats;
              })
              m result)
      ]

  end_state-running_modes :
      (r : KeeperRunner Stats) (m : Mode) (result : RunResult)
      → (end_state no_stats r m result).running_modes ≡ r.running_modes
  end_state-running_modes r m (finished d) = refl
  end_state-running_modes r m (stopped d) = refl

  pub finish_run-running_modes :
      (r : KeeperRunner Stats) (m : Mode) (now : ℕ) (stats : Stats) (result : RunResult)
      → (finish_run no_stats r m now stats result).running_modes ≡ delete_mode m r.running_modes
  unfolding finish_run
  finish_run-running_modes r m now stats result =
      elim (Bool-cases (ltb 0 (length (running_mode_list (delete_mode m r.running_modes))))) [
        | inl e ↦ rw e refl
        | inr e ↦ rw e (
            end_state-running_modes
              (record r {
                running_modes = delete_mode m r.running_modes;
                is_running = false;
                last_finished_at = some now;
                stats = stats;
              })
              m result)
      ]

  pub mark_running-accepts :
      (r : KeeperRunner Stats) (m : Mode) (now : ℕ)
      → any_conflict r.running_modes m ≡ false
      → (mark_running no_stats r m now).1 ≡ true
  unfolding mark_running
  mark_running-accepts r m now h = rw h refl
