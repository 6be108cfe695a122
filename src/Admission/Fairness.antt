-- ===== src/Admission/Fairness.antt =====
-- The queue is first in, first out, and each request is in one place at a time.
use Prim.Native.Nat.{min}
use cpa_helper_s.Prelude.{
  ℕ, suc, ◌+◌, ◌-◌, ◌≤◌, ◌<◌, ◌≡◌, refl, inl, inr, true, false, List, [], ◌∷◌, arith, if◌then◌else◌,
  length, contains, erase, take, drop, push_all, count, count-append, count-erase,
  contains-of_count, count-of_contains, Bool-cases, ◌==◌, ltb, ◌&&◌, ◌∙◌, ap, sym,
}
use cpa_helper_s.Prelude.Int.{ℤ, pos, negsuc}
use cpa_helper_s.Admission.{
  Controller, System, Event, arrives, wakes, cancels, releases, new_system, promote_loop,
  promote_locked, enter, acquire, free_slot, arrived, wake, cancel, release, step, run, Outcome,
  admitted,
}
use cpa_helper_s.Admission.Accounting.{SystemAccounted}

-- The state with the `n` oldest of the waiters `ws` granted.
abbrev pub granted_first : ℕ → Controller → List ℕ → Controller
granted_first n c ws = record {
  limit = c.limit;
  active = c.active + n;
  waiters = drop n ws;
  granted = push_all (take n ws) c.granted;
}

promote_loop_step :
    (n : ℕ) (c : Controller) (w : ℕ) (ws : List ℕ)
    → granted_first n (record c { active = c.active + 1; granted = w ∷ c.granted }) ws
      ≡ granted_first (suc n) c (w ∷ ws)
promote_loop_step n c w ws = ground arith

promote_loop_zero :
    (c : Controller) (ws : List ℕ) → granted_first 0 c ws ≡ record c { waiters = ws }
promote_loop_zero c ws = ground arith

promote_loop-lem :
    (c : Controller) (ws : List ℕ)
    → promote_loop c ws ≡ granted_first (min (length ws) (c.limit - c.active)) c ws
unfolding promote_loop
promote_loop-lem c [] = ground arith
promote_loop-lem c (w ∷ ws) = elim (Bool-cases (ltb 0 c.limit && ltb c.active c.limit)) [
  | inl free ↦
      let more : ℕ = min (length ws) (c.limit - (c.active + 1)) in
      let total : suc more ≡ min (suc (length ws)) (c.limit - c.active) = ground arith in
      rw free (
        promote_loop-lem (record c { active = c.active + 1; granted = w ∷ c.granted }) ws
        ∙ promote_loop_step more c w ws
        ∙ ap (λ n. granted_first n c (w ∷ ws)) total)
  | inr full ↦
      let none_free : min (suc (length ws)) (c.limit - c.active) ≡ 0 = ground arith in
      rw (full, none_free) (sym (promote_loop_zero c (w ∷ ws)))
]

-- `promoteLocked` grants exactly as many waiters as there are free slots, or all of them if there
-- are fewer, from the front of the queue and in its order; the others keep their places.
promote_locked-oldest :
    (c : Controller)
    → promote_locked c ≡ granted_first (min (length c.waiters) (c.limit - c.active)) c c.waiters
unfolding promote_locked
promote_locked-oldest c = promote_loop-lem c c.waiters

length-of_contains : (a : ℕ) (xs : List ℕ) → contains a xs ≡ true → 0 < length xs
length-of_contains a [] h = ground arith
length-of_contains a (x ∷ xs) h = omega arith

-- A full controller promotes nobody.
promote_loop_full :
    (c : Controller) (ws : List ℕ)
    → c.limit ≤ c.active
    → promote_loop c ws ≡ record c { waiters = ws }
unfolding promote_loop
promote_loop_full c [] h = refl
promote_loop_full c (w ∷ ws) h = ground arith

-- In a state that is accounted for, whose limit has not been lowered below the slots in use, a
-- release by a holder hands its slot to the oldest waiter: the count stays, the waiter leaves the
-- queue and is granted, and the others keep their places.
pub release-serves_oldest :
    (s : System) (h w : ℕ) (ws : List ℕ)
    → SystemAccounted s
    → contains h s.holders ≡ true
    → s.controller.waiters ≡ w ∷ ws
    → s.controller.active ≤ s.controller.limit
    → release s h ≡ record {
      controller = record s.controller { waiters = ws; granted = w ∷ s.controller.granted };
      holders = erase h s.holders;
      next = s.next;
    }
unfolding release promote_loop
release-serves_oldest s h w ws a held queue room = ground (
  arith,
  length-of_contains h s.holders held,
  promote_loop_full
      (record s.controller {
        active = s.controller.active - 1 + 1;
        granted = w ∷ s.controller.granted;
      })
      ws,
)

-- How often the number of a request stands among the holders, the granted and the queued.
abbrev pub places : ℕ → System → ℕ
places a s = count a s.holders + count a s.controller.granted + count a s.controller.waiters

abbrev pub placed : ℕ → Controller → ℕ
placed a c = count a c.granted + count a c.waiters

promote_loop-placed :
    (a : ℕ) (c : Controller) (ws : List ℕ)
    → placed a (promote_loop c ws) ≡ count a c.granted + count a ws
unfolding promote_loop
promote_loop-placed a c [] = omega arith
promote_loop-placed a c (w ∷ ws) =
    ground (
      arith,
      promote_loop-placed a (record c { active = c.active + 1; granted = w ∷ c.granted }) ws,
    )

free_slot-placed : (a : ℕ) (c : Controller) → placed a (free_slot c) ≡ placed a c
unfolding free_slot
free_slot-placed a c = promote_loop-placed a _ c.waiters

-- The numbers below `next` are in one place at most, the others in none.
abbrev pub IsPlacedOnce : System → Type 0
IsPlacedOnce s = (a : ℕ) → (places a s ≤ 1) × (s.next ≤ a → places a s ≡ 0)

wake-placed : (a : ℕ) (s : System) (w : ℕ) → places a (wake s w) ≡ places a s
unfolding wake
wake-placed a s w = ground (arith, count-erase w a s.controller.granted)

cancel-placed : (a : ℕ) (s : System) (w : ℕ) → places a (cancel s w) ≤ places a s
unfolding cancel
cancel-placed a s w = ground (
  arith,
  count-erase w a s.controller.granted,
  count-erase w a s.controller.waiters,
  free_slot-placed a (record s.controller { granted = erase w s.controller.granted }),
)

release-placed : (a : ℕ) (s : System) (h : ℕ) → places a (release s h) ≤ places a s
unfolding release
release-placed a s h = ground (arith, count-erase h a s.holders, free_slot-placed a s.controller)

arrived-placed :
    (a : ℕ) (s : System) (c : Controller) (queue_size : ℤ)
    → placed a c ≡ placed a s.controller
    → places a (arrived s (enter c queue_size s.next)) ≤ places a s + (if s.next == a then 1 else 0)
unfolding enter arrived
arrived-placed a s c queue_size e = ground (arith, count-append a c.waiters (s.next ∷ []))

arrives-placed :
    (a : ℕ) (s : System) (limit queue_size : ℤ)
    → places a (step s (arrives limit queue_size)) ≤ places a s + (if s.next == a then 1 else 0)
unfolding step
arrives-placed a s (negsuc n) queue_size = omega arith
arrives-placed a s (pos n) queue_size = elim (Bool-cases (n == 0)) [
  | inl off ↦ rw off (omega arith)
  | inr on ↦ rw on (
      arrived-placed a s _ queue_size
        (promote_loop-placed a (record s.controller { limit = n }) s.controller.waiters))
]

arrived-next : (s : System) (r : Controller × Outcome) → (arrived s r).next ≡ suc s.next
unfolding arrived
arrived-next s (c, admitted) = refl
arrived-next s (c, _) = refl

arrives-next :
    (s : System) (limit queue_size : ℤ) → (step s (arrives limit queue_size)).next ≡ suc s.next
unfolding step
arrives-next s limit queue_size = arrived-next s (acquire s.controller limit queue_size s.next)

keeps-next :
    (s : System) (w : ℕ)
    → ((wake s w).next ≡ s.next) × ((cancel s w).next ≡ s.next) × ((release s w).next ≡ s.next)
unfolding wake cancel release
keeps-next s w = ground arith

step-IsPlacedOnce : (s : System) (e : Event) → IsPlacedOnce s → IsPlacedOnce (step s e)
step-IsPlacedOnce s (arrives limit queue_size) once a =
    ground (arith, once a, arrives-placed a s limit queue_size, arrives-next s limit queue_size)
step-IsPlacedOnce s (wakes w) once a =
    unfold step in ground (arith, once a, wake-placed a s w, keeps-next s w)
step-IsPlacedOnce s (cancels w) once a =
    unfold step in ground (arith, once a, cancel-placed a s w, keeps-next s w)
step-IsPlacedOnce s (releases h) once a =
    unfold step in ground (arith, once a, release-placed a s h, keeps-next s h)

run_from-IsPlacedOnce : (s : System) (es : List Event) → IsPlacedOnce s → IsPlacedOnce (run s es)
unfolding run
run_from-IsPlacedOnce s [] once = once
run_from-IsPlacedOnce s (e ∷ es) once =
    run_from-IsPlacedOnce (step s e) es (step-IsPlacedOnce s e once)

-- After any sequence of events from a new controller, each request is at most once among the
-- holders, the granted and the queued, all three together.
pub run-IsPlacedOnce : (es : List Event) → IsPlacedOnce (run new_system es)
run-IsPlacedOnce es = run_from-IsPlacedOnce new_system es (λ a. (omega arith, λ h. omega arith))

-- A number that was given out and stands nowhere any more.
abbrev IsGone : ℕ → System → Type 0
IsGone h s = (places h s ≡ 0) × (h < s.next)

step-IsGone : (h : ℕ) (s : System) (e : Event) → IsGone h s → IsGone h (step s e)
step-IsGone h s (arrives limit queue_size) gone =
    ground (arith, gone, arrives-placed h s limit queue_size, arrives-next s limit queue_size)
step-IsGone h s (wakes w) gone =
    unfold step in ground (arith, gone, wake-placed h s w, keeps-next s w)
step-IsGone h s (cancels w) gone =
    unfold step in ground (arith, gone, cancel-placed h s w, keeps-next s w)
step-IsGone h s (releases w) gone =
    unfold step in ground (arith, gone, release-placed h s w, keeps-next s w)

run-IsGone : (h : ℕ) (s : System) (es : List Event) → IsGone h s → IsGone h (run s es)
unfolding run
run-IsGone h s [] gone = gone
run-IsGone h s (e ∷ es) gone = run-IsGone h (step s e) es (step-IsGone h s e gone)

released-IsGone :
    (s : System) (h : ℕ) → IsPlacedOnce s → contains h s.holders ≡ true → IsGone h (release s h)
unfolding release
released-IsGone s h once held = ground (
  arith,
  once h,
  count-of_contains h s.holders held,
  count-erase h h s.holders,
  free_slot-placed h s.controller,
)

release_stale : (s : System) (h : ℕ) → IsGone h s → release s h ≡ s
unfolding release
release_stale s h gone =
    let left : contains h s.holders ≡ false = contains-of_count h s.holders (omega (arith, gone)) in
    rw left refl

-- After any sequence of events from a new controller, a request that holds a slot releases it. Then,
-- whatever happens in between, its slot going to another request included, a second call of its
-- release function changes nothing.
pub release_twice :
    (before after : List Event) (h : ℕ)
    → let s = run new_system before in
      contains h s.holders ≡ true → let t = run (release s h) after in release t h ≡ t
release_twice before after h held =
    let s = run new_system before in
    release_stale _ h
      (run-IsGone h (release s h) after (released-IsGone s h (run-IsPlacedOnce before) held))
