-- ===== src/Admission/Accounting.antt =====
-- Every slot that the controller counts belongs to one request, in every interleaving.
use cpa_helper_s.Prelude.{
  ℕ, suc, ◌==◌, ◌≢◌, ◌+◌, ◌≤◌, ◌≡◌, refl, ◌⊎◌, inl, inr, List, [], ◌∷◌, arith, length, erase,
  length-erase, Bool-cases,
}
use cpa_helper_s.Prelude.Int.{ℤ, pos, negsuc}
use cpa_helper_s.Admission.{
  Controller, System, Event, arrives, wakes, cancels, releases, new_system, promote_loop, enter,
  free_slot, arrived, wake, cancel, release, step, run, Outcome, unlimited, admitted, queue_full,
  queued,
}

-- `h` requests hold a slot. The count is right, and nobody queues while a slot is free.
pub record Accounted (c : Controller) (h : ℕ) : Type 0 where
  pub counted : c.active ≡ h + length c.granted
  pub busy : (c.waiters ≡ []) ⊎ (c.limit ≤ c.active)

-- The loop keeps the count, whatever the queue was before, and leaves no slot free beside a waiter.
pub promote_loop-Accounted :
    (c : Controller) (ws : List ℕ) (h : ℕ)
    → c.active ≡ h + length c.granted
    → Accounted (promote_loop c ws) h
unfolding promote_loop
promote_loop-Accounted c [] h e = record { counted = e; busy = inl refl }
promote_loop-Accounted c (w ∷ ws) h e = ground (
  arith,
  promote_loop-Accounted (record c { active = c.active + 1; granted = w ∷ c.granted }) ws h
      (omega arith),
)

free_slot-Accounted :
    (c : Controller) (h : ℕ) → c.active ≡ suc h + length c.granted → Accounted (free_slot c) h
unfolding free_slot
free_slot-Accounted c h e = promote_loop-Accounted _ c.waiters h (ground arith)

enter-Accounted :
    (c : Controller) (queue_size : ℤ) (me h : ℕ)
    → Accounted c h
    → (((enter c queue_size me).1 ≡ admitted) × Accounted (enter c queue_size me).0 (suc h))
      ⊎ (((enter c queue_size me).1 ≢ admitted) × Accounted (enter c queue_size me).0 h)
unfolding enter
enter-Accounted c queue_size me h a = ground arith

abbrev pub SystemAccounted : System → Type 0
SystemAccounted s = Accounted s.controller (length s.holders)

arrived-Accounted :
    (s : System) (r : Controller × Outcome)
    → ((r.1 ≡ admitted) × Accounted r.0 (suc (length s.holders)))
      ⊎ ((r.1 ≢ admitted) × Accounted r.0 (length s.holders))
    → SystemAccounted (arrived s r)
unfolding arrived
arrived-Accounted s (c, unlimited) h = ground arith
arrived-Accounted s (c, admitted) h = ground arith
arrived-Accounted s (c, queue_full) h = ground arith
arrived-Accounted s (c, queued) h = ground arith

acquire-Accounted :
    (s : System) (limit queue_size : ℤ)
    → SystemAccounted s
    → SystemAccounted (step s (arrives limit queue_size))
unfolding step
acquire-Accounted s (negsuc n) queue_size a = a
acquire-Accounted s (pos n) queue_size a = elim (Bool-cases (n == 0)) [
  | inl off ↦ rw off a
  | inr on ↦ rw on (
      arrived-Accounted s _ (
        enter-Accounted _ queue_size s.next (length s.holders)
          (promote_loop-Accounted _ s.controller.waiters (length s.holders) a.counted)))
]

wake-Accounted : (s : System) (w : ℕ) → SystemAccounted s → SystemAccounted (wake s w)
unfolding wake
wake-Accounted s w a = ground (arith, length-erase w s.controller.granted)

erase-eq-nil : (w : ℕ) (ws : List ℕ) → ws ≡ [] → erase w ws ≡ []
erase-eq-nil w [] e = refl
erase-eq-nil w (x ∷ ws) e = cc

cancel-Accounted : (s : System) (w : ℕ) → SystemAccounted s → SystemAccounted (cancel s w)
unfolding cancel
cancel-Accounted s w a = ground (
  arith,
  length-erase w s.controller.granted,
  free_slot-Accounted (record s.controller { granted = erase w s.controller.granted })
      (length s.holders),
  erase-eq-nil w s.controller.waiters,
)

release-Accounted : (s : System) (h : ℕ) → SystemAccounted s → SystemAccounted (release s h)
unfolding release
release-Accounted s h a =
    ground (
      arith,
      length-erase h s.holders,
      free_slot-Accounted s.controller (length (erase h s.holders)),
    )

-- From any state that is accounted for, every event of every interleaving (arrivals with whatever
-- limit and queue size are configured then, wake-ups, cancellations, releases, stale ones included)
-- leads to a state in which `active` is the number of requests that hold a slot plus the granted
-- waiters that have not woken yet, and no request waits in the queue while `active` is below `limit`.
pub step-Accounted : (s : System) (e : Event) → SystemAccounted s → SystemAccounted (step s e)
unfolding step
step-Accounted s (arrives limit queue_size) a = acquire-Accounted s limit queue_size a
step-Accounted s (wakes w) a = wake-Accounted s w a
step-Accounted s (cancels w) a = cancel-Accounted s w a
step-Accounted s (releases h) a = release-Accounted s h a

run_from-Accounted : (s : System) (es : List Event) → SystemAccounted s → SystemAccounted (run s es)
unfolding run
run_from-Accounted s [] a = a
run_from-Accounted s (e ∷ es) a = run_from-Accounted (step s e) es (step-Accounted s e a)

-- After every sequence of events from a new controller (arrivals with whatever limit and queue size
-- are configured then, wake-ups, cancellations, releases, stale ones included), `active` is the number
-- of requests that hold a slot plus the granted waiters that have not woken yet, and no request waits
-- in the queue while `active` is below `limit`.
pub run-Accounted : (es : List Event) → SystemAccounted (run new_system es)
run-Accounted es =
    run_from-Accounted new_system es (record { counted = omega arith; busy = inl refl })
