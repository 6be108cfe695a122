-- ===== src/Admission/Tests.antt =====
-- Runs of the gate, and the theorems at concrete histories.
use cpa_helper_s.Prelude.{contains, true, ◌≡◌, refl, inr, ◌≤◌, ◌+◌, List, [], ◌∷◌, arith, length}
use cpa_helper_s.Prelude.Int.{pos}
use cpa_helper_s.Admission.{
  System, Event, arrives, wakes, cancels, releases, new_system, promote_loop, promote_locked,
  acquire, enter, arrived, wake, cancel, cancel_waiter, free_slot, release, run, step,
}
use cpa_helper_s.Admission.Accounting.{SystemAccounted, step-Accounted, run-Accounted}
use cpa_helper_s.Admission.Fairness.{
  release-serves_oldest, IsPlacedOnce, run-IsPlacedOnce, release_twice,
}
use cpa_helper_s.Admission.Limits.{run_limits}

-- One slot and two places: the third and the fourth request queue up or are refused.
abbrev rush : List Event
rush =
    arrives (pos 1) (pos 2)
    ∷ arrives (pos 1) (pos 2)
    ∷ arrives (pos 1) (pos 2)
    ∷ arrives (pos 1) (pos 2)
    ∷ []

abbrev rushed : System
rushed = record {
  controller = record { limit = 1; active = 1; waiters = 1 ∷ 2 ∷ []; granted = [] };
  holders = 0 ∷ [];
  next = 4;
}

rush-run : run new_system rush ≡ rushed
unfolding run promote_loop
rush-run = refl

-- The slot goes to request 1, which is cancelled before it wakes; so it goes to request 2.
handed_on : run rushed (releases 0 ∷ releases 0 ∷ cancels 1 ∷ wakes 2 ∷ cancels 2 ∷ []) ≡ record {
  controller = record { limit = 1; active = 1; waiters = []; granted = [] };
  holders = 2 ∷ [];
  next = 4;
}
unfolding run promote_loop
handed_on = refl

rushed-Accounted : SystemAccounted rushed
rushed-Accounted = record { counted = refl; busy = inr (omega arith) }

step-Accounted_example : SystemAccounted (step rushed (releases 0))
step-Accounted_example = step-Accounted rushed (releases 0) rushed-Accounted

run-Accounted_example : SystemAccounted (run new_system rush)
run-Accounted_example = run-Accounted rush

release-serves_oldest_example : release rushed 0 ≡ record {
  controller = record { limit = 1; active = 1; waiters = 2 ∷ []; granted = 1 ∷ [] };
  holders = [];
  next = 4;
}
release-serves_oldest_example =
    release-serves_oldest rushed 0 1 (2 ∷ []) rushed-Accounted refl refl (omega arith)

run-IsPlacedOnce_example : IsPlacedOnce (run new_system rush)
run-IsPlacedOnce_example = run-IsPlacedOnce rush

first-holds : contains 0 (run new_system rush).holders ≡ true
unfolding run step acquire enter arrived promote_locked promote_loop wake cancel cancel_waiter
    release free_slot
first-holds = refl

-- In between another request arrives and the slot goes to a waiter.
release_twice_example :
    let t = run (release (run new_system rush) 0) (arrives (pos 1) (pos 2) ∷ wakes 1 ∷ []) in
    release t 0 ≡ t
release_twice_example = release_twice rush (arrives (pos 1) (pos 2) ∷ wakes 1 ∷ []) 0 first-holds

run_limits_example :
    (length (run new_system rush).holders + length (run new_system rush).controller.granted ≤ 1)
    × (length (run new_system rush).controller.waiters ≤ 2)
run_limits_example = run_limits 1 2 rush (omega arith)
