-- ===== src/Admission.antt =====
-- backend/internal/app/model_proxy_admission.go: the gate that bounds how many model requests run at
-- once. The controller's fields are those of `modelProxyAdmissionController`; a waiter is the number
-- of its request, and `granted` holds the waiters whose flag is set while their `select` is pending.
-- A method's body between `Lock` and `Unlock` is one function; `System` adds the goroutines.
pub mod Accounting
pub mod Fairness
pub mod Limits
mod Tests
use cpa_helper_s.Prelude.{
  ℕ, suc, ◌+◌, ◌-◌, ◌<◌, ◌≡◌, refl, Bool, true, false, ◌&&◌, ◌||◌, List, [], ◌∷◌, ◌++◌, arith, ltb,
  leb, ◌==◌, if◌then◌else◌, length, contains, erase,
}
use cpa_helper_s.Prelude.Int.{ℤ, pos, negsuc}

pub record Controller : Type 0 where
  pub limit : ℕ
  pub active : ℕ
  pub waiters : List ℕ
  pub granted : List ℕ

abbrev pub new_controller : Controller
new_controller = record { limit = 0; active = 0; waiters = []; granted = [] }

-- The loop of `promoteLocked`, over the waiters that are left.
unfoldable pub promote_loop : Controller → List ℕ → Controller
promote_loop c [] = record c { waiters = [] }
promote_loop c (w ∷ ws) =
    if ltb 0 c.limit && ltb c.active c.limit
    then promote_loop (record c { active = c.active + 1; granted = w ∷ c.granted }) ws
    else record c { waiters = w ∷ ws }

unfoldable pub promote_locked : Controller → Controller
promote_locked c = promote_loop c c.waiters

-- What a request leaves the lock with: the empty release function of a gate that is off, a slot,
-- "queue_full", or a place in the queue.
pub data Outcome : Type 0 where
  unlimited admitted queue_full queued : Outcome

-- `queueSize <= 0 || len(c.waiters) >= queueSize`.
abbrev pub is_queue_full : ℤ → List ℕ → Bool
is_queue_full (negsuc n) ws = true
is_queue_full (pos n) ws = n == 0 || leb n (length ws)

-- The rest of `acquire` up to `Unlock`, after the call of `promoteLocked`.
unfoldable pub enter : Controller → ℤ → ℕ → Controller × Outcome
enter c queue_size me =
    if ltb c.active c.limit && length c.waiters == 0
    then (record c { active = c.active + 1 }, admitted)
    else if is_queue_full queue_size c.waiters
    then (c, queue_full)
    else (record c { waiters = c.waiters ++ me ∷ [] }, queued)

-- `acquire` for request `me`, up to `Unlock`.
unfoldable pub acquire : Controller → ℤ → ℤ → ℕ → Controller × Outcome
unfolding enter promote_locked
acquire c (negsuc n) queue_size me = (c, unlimited)
acquire c (pos limit) queue_size me =
    if limit == 0
    then (c, unlimited)
    else enter (promote_locked (record c { limit = limit })) queue_size me

-- `if c.active > 0 { c.active-- }` and `promoteLocked`, as in `releaseFunc` and `cancelWaiter`.
unfoldable pub free_slot : Controller → Controller
unfolding promote_locked
free_slot c =
    promote_locked (record c { active = if ltb 0 c.active then c.active - 1 else c.active })

unfoldable pub cancel_waiter : Controller → ℕ → Controller
unfolding free_slot
cancel_waiter c w =
    if contains w c.granted
    then free_slot (record c { granted = erase w c.granted })
    else record c { waiters = erase w c.waiters }

-- The goroutines around the controller: `holders` are the requests whose release function has not
-- run, `next` numbers the requests.
pub record System : Type 0 where
  pub controller : Controller
  pub holders : List ℕ
  pub next : ℕ

abbrev pub new_system : System
new_system = record { controller = new_controller; holders = []; next = 0 }

-- A request arrives with the configured limit and queue size; a waiter's `select` picks its
-- `ready` channel, or its context or timer; a release function is called, perhaps again.
pub data Event : Type 0 where
  arrives : ℤ → ℤ → Event
  wakes cancels releases : ℕ → Event

-- Who holds a slot after the lock of `acquire`.
unfoldable pub arrived : System → Controller × Outcome → System
arrived s (c, admitted) = record { controller = c; holders = s.next ∷ s.holders; next = suc s.next }
arrived s (c, _) = record { controller = c; holders = s.holders; next = suc s.next }

-- A granted waiter takes its release function.
unfoldable pub wake : System → ℕ → System
wake s w =
    if contains w s.controller.granted
    then record {
      controller = record s.controller { granted = erase w s.controller.granted };
      holders = w ∷ s.holders;
      next = s.next;
    }
    else s

-- A waiter that nobody knows, woken or cancelled before, has left its `select`.
unfoldable pub cancel : System → ℕ → System
unfolding cancel_waiter
cancel s w =
    if contains w s.controller.granted || contains w s.controller.waiters
    then record s { controller = cancel_waiter s.controller w }
    else s

-- `once.Do`: the second call of a release function does nothing.
unfoldable pub release : System → ℕ → System
unfolding free_slot
release s h =
    if contains h s.holders
    then record { controller = free_slot s.controller; holders = erase h s.holders; next = s.next }
    else s

unfoldable pub step : System → Event → System
unfolding acquire arrived wake cancel release
step s (arrives limit queue_size) = arrived s (acquire s.controller limit queue_size s.next)
step s (wakes w) = wake s w
step s (cancels w) = cancel s w
step s (releases h) = release s h

unfoldable pub run : System → List Event → System
unfolding step
run s [] = s
run s (e ∷ es) = run (step s e) es
