-- ===== src/Keeper/Locks.antt =====
-- The runner over any interleaving of its runs and of the workers that lock accounts.
use cpa_helper_s.Prelude.{
  ℕ, ◌+◌, ◌≤◌, ◌≡◌, refl, true, false, ◌&&◌, not, List, [], ◌∷◌, ◌++◌, arith, if◌then◌else◌, length,
}
use cpa_helper_s.Prelude.Text.{Text, text_eq, text_eq_iff, is_empty, trim_space}
use cpa_helper_s.Keeper.{
  Mode, KeeperRunner, RunResult, has_mode, in_flight, delete_auth, mark_running, finish_run,
  try_lock_auth_name, unlock_auth_name, new_keeper_runner,
}
use cpa_helper_s.Keeper.Modes.{
  IsConsistent, mark_running-IsConsistent, finish_run-IsConsistent, deleted-conflict,
  Compatible-length,
}
use cpa_helper_s.Keeper.Frames.{
  lock-IsConsistent, unlock-IsConsistent, mark_running-auths, finish_run-auths,
  finish_run-running_modes, mark_running-accepts,
}

-- How many of the holders hold the name.
abbrev pub held : Text → List Text → ℕ
held n [] = 0
held n (h ∷ hs) = (if text_eq (trim_space h) n then 1 else 0) + held n hs

held-append : (n : Text) (ns bs : List Text) → held n (ns ++ bs) ≡ held n ns + held n bs
held-append n [] bs = omega arith
held-append n (a ∷ ns) bs = ground (arith, held-append n ns bs)

module _ {Stats : Type 0} (no_stats : Stats) where
  -- The runner, and the names that the workers hold a lock on.
  abbrev pub State : Type 0
  State = KeeperRunner Stats × List Text

  -- A run starts, a run that is under way ends, a worker locks a name and a worker that holds one
  -- gives it back. A refused start or lock changes nothing.
  pub data Step : State → State → Type 0 where
    starts :
        (r : KeeperRunner Stats) (hs : List Text) (m : Mode) (now : ℕ)
        → Step (r, hs) ((mark_running no_stats r m now).0, hs)
    ends :
        (r : KeeperRunner Stats) (hs : List Text) (m : Mode) (now : ℕ) (stats : Stats)
        (result : RunResult)
        → has_mode m r.running_modes ≡ true
        → Step (r, hs) (finish_run no_stats r m now stats result, hs)
    locks :
        (r : KeeperRunner Stats) (hs : List Text) (m : Mode) (name : Text)
        → (try_lock_auth_name no_stats r m name).1 ≡ true
        → Step (r, hs) ((try_lock_auth_name no_stats r m name).0, name ∷ hs)
    unlocks :
        (r : KeeperRunner Stats) (ns : List Text) (name : Text) (bs : List Text)
        → Step (r, ns ++ name ∷ bs) (unlock_auth_name no_stats r name, ns ++ bs)

  pub data Reachable : State → Type 0 where
    at_start : Reachable (new_keeper_runner no_stats, [])
    then_step : {s t : State} → Reachable s → Step s t → Reachable t

  -- The map has exactly the names that are held, each by one worker.
  abbrev pub IsExclusive : State → Type 0
  IsExclusive s =
      (n : Text)
      → is_empty n ≡ false
      → held n s.1 ≡ (if in_flight n s.0.in_flight_auths then 1 else 0)

  in_flight-delete :
      (n t : Text) (ls : List (Text × Mode))
      → in_flight n (delete_auth t ls) ≡ (not (text_eq t n) && in_flight n ls)
  in_flight-delete n t [] = ground arith
  in_flight-delete n t ((k, m) ∷ ls) =
      ground (arith, in_flight-delete n t ls, text_eq_iff k t, text_eq_iff k n, text_eq_iff t n)

  lock-IsExclusive :
      (r : KeeperRunner Stats) (hs : List Text) (m : Mode) (name : Text)
      → (try_lock_auth_name no_stats r m name).1 ≡ true
      → IsExclusive (r, hs)
      → IsExclusive ((try_lock_auth_name no_stats r m name).0, name ∷ hs)
  unfolding try_lock_auth_name
  lock-IsExclusive r hs m name e h n k =
      ground (arith, h n k, e, k, text_eq_iff (trim_space name) n)

  unlock-IsExclusive :
      (r : KeeperRunner Stats) (ns : List Text) (name : Text) (bs : List Text)
      → IsExclusive (r, ns ++ name ∷ bs)
      → IsExclusive (unlock_auth_name no_stats r name, ns ++ bs)
  unfolding unlock_auth_name
  unlock-IsExclusive r ns name bs h n k = ground (
    arith,
    h n k,
    k,
    held-append n ns (name ∷ bs),
    held-append n ns bs,
    in_flight-delete n (trim_space name) r.in_flight_auths,
    text_eq_iff (trim_space name) n,
  )

  Step-IsConsistent : {s t : State} → Step s t → IsConsistent s.0 → IsConsistent t.0
  Step-IsConsistent (starts r hs m now) c = mark_running-IsConsistent no_stats r m now c
  Step-IsConsistent (ends r hs m now stats result h) c =
      finish_run-IsConsistent no_stats r m now stats result c
  Step-IsConsistent (locks r hs m name h) c = lock-IsConsistent no_stats r m name c
  Step-IsConsistent (unlocks r ns name bs) c = unlock-IsConsistent no_stats r name c

  Step-IsExclusive : {s t : State} → Step s t → IsExclusive s → IsExclusive t
  Step-IsExclusive (starts r hs m now) e = rw (mark_running-auths no_stats r m now) e
  Step-IsExclusive (ends r hs m now stats result h) e =
      rw (finish_run-auths no_stats r m now stats result) e
  Step-IsExclusive (locks r hs m name h) e = lock-IsExclusive r hs m name h e
  Step-IsExclusive (unlocks r ns name bs) e = unlock-IsExclusive r ns name bs e

  new-IsConsistent : IsConsistent (new_keeper_runner no_stats)
  new-IsConsistent = record { compatible = tt; is_running = refl; status = λ e. ground (arith, e) }

  -- In every state that is reached, the runs under way are compatible: no mode runs twice, a
  -- scheduled and a manual inspection never run together, so that at most three runs are under way;
  -- and the status fields say whether one is, and of which kind.
  pub Reachable-IsConsistent :
      {s : State} → Reachable s → IsConsistent s.0 × (length s.0.running_modes ≤ 3)
  Reachable-IsConsistent at_start = (new-IsConsistent, omega arith)
  Reachable-IsConsistent (then_step a b) =
      let c = Step-IsConsistent b (Reachable-IsConsistent a).0 in
      (c, Compatible-length _ c.compatible)

  -- In every state that is reached, each account name that is not blank, without the spaces around it, is held by at
  -- most one worker, and the map of the runner has exactly the names that are held.
  pub Reachable-IsExclusive : {s : State} → Reachable s → IsExclusive s
  Reachable-IsExclusive at_start = λ n e. refl
  Reachable-IsExclusive (then_step a b) = Step-IsExclusive b (Reachable-IsExclusive a)

  -- When a mode that is under way ends, in a runner whose runs are compatible, the same mode can
  -- start again at once.
  pub finish_run-restarts :
      (r : KeeperRunner Stats) (m : Mode) (now later : ℕ) (stats : Stats) (result : RunResult)
      → IsConsistent r
      → has_mode m r.running_modes ≡ true
      → (mark_running no_stats (finish_run no_stats r m now stats result) m later).1 ≡ true
  finish_run-restarts r m now later stats result c h =
      mark_running-accepts no_stats (finish_run no_stats r m now stats result) m later (
        rw (finish_run-running_modes no_stats r m now stats result)
          (deleted-conflict m r.running_modes c.compatible h))
