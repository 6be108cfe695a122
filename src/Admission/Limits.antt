-- ===== src/Admission/Limits.antt =====
-- The gate's two bounds, over whole histories.
use cpa_helper_s.Prelude.{
  ℕ, ◌+◌, ◌≤◌, ◌<◌, inl, inr, List, [], ◌∷◌, arith, length, length-append, erase, length-erase-le,
  Bool-cases, ◌==◌, All,
}
use cpa_helper_s.Prelude.Int.{ℤ, pos, negsuc, ◌≤ℤ◌}
use cpa_helper_s.Admission.{
  Controller, System, Event, arrives, wakes, cancels, releases, new_system, promote_loop, enter,
  free_slot, arrived, wake, cancel, release, step, run,
}
use cpa_helper_s.Admission.Accounting.{run-Accounted}

-- What an arrival is configured with stays within `l` and `q`, and the gate is on.
abbrev pub Configured : ℕ → ℕ → Event → Type 0
Configured l q (arrives (pos limit) queue_size) = (0 < limit) × (limit ≤ l) × (queue_size ≤ℤ pos q)
Configured l q (arrives (negsuc n) queue_size) = ⊥
Configured l q _ = Unit

record Bounded (l q : ℕ) (c : Controller) : Type 0 where
  limited : c.limit ≤ l
  running : c.active ≤ l
  queueing : length c.waiters ≤ q

promote_loop-Bounded :
    (l q : ℕ) (c : Controller) (ws : List ℕ)
    → c.limit ≤ l
    → c.active ≤ l
    → length ws ≤ q
    → Bounded l q (promote_loop c ws)
unfolding promote_loop
promote_loop-Bounded l q c [] h k m = omega arith
promote_loop-Bounded l q c (w ∷ ws) h k m = ground (
  arith,
  promote_loop-Bounded l q (record c { active = c.active + 1; granted = w ∷ c.granted }) ws,
)

free_slot-Bounded : (l q : ℕ) (c : Controller) → Bounded l q c → Bounded l q (free_slot c)
unfolding free_slot
free_slot-Bounded l q c b = promote_loop-Bounded l q _ c.waiters b.limited (ground arith) b.queueing

arrived-Bounded :
    (l q : ℕ) (s : System) (c : Controller) (queue_size : ℤ)
    → queue_size ≤ℤ pos q
    → Bounded l q c
    → Bounded l q (arrived s (enter c queue_size s.next)).controller
unfolding enter arrived
arrived-Bounded l q s c queue_size h b = ground (arith, length-append c.waiters (s.next ∷ []))

step-Bounded :
    (l q : ℕ) (s : System) (e : Event)
    → Configured l q e
    → Bounded l q s.controller
    → Bounded l q (step s e).controller
unfolding step
step-Bounded l q s (arrives (negsuc n) queue_size) k b = absurd k
step-Bounded l q s (arrives (pos n) queue_size) k b = elim (Bool-cases (n == 0)) [
  | inl off ↦ absurd (ground arith)
  | inr on ↦ rw on (
      arrived-Bounded l q s _ queue_size k.2
        (promote_loop-Bounded l q _ s.controller.waiters k.1 b.running b.queueing))
]
step-Bounded l q s (wakes w) k b = unfold wake in ground arith
step-Bounded l q s (cancels w) k b =
    unfold cancel in
    ground (
      arith,
      free_slot-Bounded l q (record s.controller { granted = erase w s.controller.granted }),
      length-erase-le w s.controller.waiters,
    )
step-Bounded l q s (releases h) k b =
    unfold release in ground (arith, free_slot-Bounded l q s.controller)

run-Bounded :
    (l q : ℕ) (s : System) (es : List Event)
    → All (Configured l q) es
    → Bounded l q s.controller
    → Bounded l q (run s es).controller
unfolding run
run-Bounded l q s [] k b = b
run-Bounded l q s (e ∷ es) k b = run-Bounded l q (step s e) es k.1 (step-Bounded l q s e k.0 b)

-- If every request of a history finds the gate on, with a limit of at most `l` and a queue size of at
-- most `q`, then at no point do more than `l` requests hold a slot, those granted one and not yet
-- awake included, nor do more than `q` requests wait.
pub run_limits :
    (l q : ℕ) (es : List Event)
    → All (Configured l q) es
    → let s = run new_system es in
      (length s.holders + length s.controller.granted ≤ l) × (length s.controller.waiters ≤ q)
run_limits l q es k =
    let b = run-Bounded l q new_system es k (omega arith) in
    let a = run-Accounted es in (omega (arith, a.counted, b.running), b.queueing)
