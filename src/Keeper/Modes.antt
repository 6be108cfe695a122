-- ===== src/Keeper/Modes.antt =====
-- Which runs of the keeper may be under way together, and what the status then says.
use cpa_helper_s.Prelude.{
  ℕ, suc, ◌+◌, ◌-◌, ◌≤◌, ◌<◌, ◌≡◌, refl, true, false, some, List, [], ◌∷◌, arith, ltb, ◌==◌,
  if◌then◌else◌, length, Bool-cases, inl, inr,
}
use cpa_helper_s.Keeper.{
  Mode, daemon, once, conditional, accounts, mode_order, keeper_modes_conflict, KeeperRunner,
  running, RunResult, finished, stopped, has_mode, delete_mode, any_conflict, insert_mode,
  running_mode_list, status_mode, running_detail, mark_running, end_state, finish_run,
}

-- No mode stands twice, and a scheduled and a manual inspection do not stand together.
abbrev pub Compatible : List Mode → Type 0
Compatible [] = Unit
Compatible (m ∷ ms) = (any_conflict ms m ≡ false) × Compatible ms

-- What the status fields say of the runs under way.
pub record IsConsistent {Stats : Type 0} (r : KeeperRunner Stats) : Type 0 where
  pub compatible : Compatible r.running_modes
  pub is_running : r.is_running ≡ ltb 0 (length r.running_modes)
  pub status :
      r.is_running ≡ true
      → (r.state ≡ running)
        × (r.mode ≡ status_mode (running_mode_list r.running_modes))
        × (r.detail ≡ running_detail (running_mode_list r.running_modes))

conflict-delete :
    (m n : Mode) (ms : List Mode)
    → any_conflict ms n ≡ false
    → any_conflict (delete_mode m ms) n ≡ false
conflict-delete m n [] h = refl
conflict-delete m n (x ∷ ms) h = ground (arith, conflict-delete m n ms)

Compatible-delete : (m : Mode) (ms : List Mode) → Compatible ms → Compatible (delete_mode m ms)
Compatible-delete m [] c = tt
Compatible-delete m (x ∷ ms) c =
    ground (arith, Compatible-delete m ms c.1, conflict-delete m x ms c.0)

length-insert : (m : Mode) (ms : List Mode) → length (insert_mode m ms) ≡ suc (length ms)
length-insert m [] = refl
length-insert m (x ∷ ms) = ground (arith, length-insert m ms)

length-running : (ms : List Mode) → length (running_mode_list ms) ≡ length ms
unfolding running_mode_list
length-running [] = refl
length-running (m ∷ ms) = ground (arith, length-running ms, length-insert m (running_mode_list ms))

-- The slot of a mode: the two kinds of inspection share one.
abbrev slot : Mode → ℕ
slot m = mode_order m - 1

abbrev in_slot : ℕ → List Mode → ℕ
in_slot k [] = 0
in_slot k (m ∷ ms) = (if slot m == k then 1 else 0) + in_slot k ms

conflict-slot : (m n : Mode) → keeper_modes_conflict m n ≡ (slot m == slot n)
unfolding keeper_modes_conflict mode_order
conflict-slot daemon daemon = refl
conflict-slot daemon once = refl
conflict-slot daemon conditional = refl
conflict-slot daemon accounts = refl
conflict-slot once daemon = refl
conflict-slot once once = refl
conflict-slot once conditional = refl
conflict-slot once accounts = refl
conflict-slot conditional daemon = refl
conflict-slot conditional once = refl
conflict-slot conditional conditional = refl
conflict-slot conditional accounts = refl
conflict-slot accounts daemon = refl
conflict-slot accounts once = refl
conflict-slot accounts conditional = refl
conflict-slot accounts accounts = refl

in_slot-free : (m : Mode) (ms : List Mode) → any_conflict ms m ≡ false → in_slot (slot m) ms ≡ 0
in_slot-free m [] h = refl
in_slot-free m (x ∷ ms) h = ground (arith, in_slot-free m ms, conflict-slot x m)

in_slot-le : (k : ℕ) (ms : List Mode) → Compatible ms → in_slot k ms ≤ 1
in_slot-le k [] c = omega arith
in_slot-le k (m ∷ ms) c = ground (arith, in_slot-le k ms c.1, in_slot-free m ms c.0)

length-slots : (ms : List Mode) → length ms ≡ in_slot 0 ms + in_slot 1 ms + in_slot 2 ms
unfolding mode_order
length-slots [] = refl
length-slots (daemon ∷ ms) = omega (arith, length-slots ms)
length-slots (once ∷ ms) = omega (arith, length-slots ms)
length-slots (conditional ∷ ms) = omega (arith, length-slots ms)
length-slots (accounts ∷ ms) = omega (arith, length-slots ms)

pub Compatible-length : (ms : List Mode) → Compatible ms → length ms ≤ 3
Compatible-length ms c =
    omega (arith, length-slots ms, in_slot-le 0 ms c, in_slot-le 1 ms c, in_slot-le 2 ms c)

free-in_slot : (m : Mode) (ms : List Mode) → in_slot (slot m) ms ≡ 0 → any_conflict ms m ≡ false
free-in_slot m [] h = refl
free-in_slot m (x ∷ ms) h = ground (arith, free-in_slot m ms, conflict-slot x m)

in_slot-delete_le :
    (m : Mode) (k : ℕ) (ms : List Mode) → in_slot k (delete_mode m ms) ≤ in_slot k ms
in_slot-delete_le m k [] = omega arith
in_slot-delete_le m k (x ∷ ms) = ground (arith, in_slot-delete_le m k ms)

in_slot-delete :
    (m : Mode) (ms : List Mode)
    → has_mode m ms ≡ true
    → in_slot (slot m) (delete_mode m ms) < in_slot (slot m) ms
in_slot-delete m [] h = ground arith
in_slot-delete m (x ∷ ms) h = ground (arith, in_slot-delete m ms, in_slot-delete_le m (slot m) ms)

pub deleted-conflict :
    (m : Mode) (ms : List Mode)
    → Compatible ms
    → has_mode m ms ≡ true
    → any_conflict (delete_mode m ms) m ≡ false
deleted-conflict m ms c h =
    free-in_slot m (delete_mode m ms)
      (omega (arith, in_slot-delete m ms h, in_slot-le (slot m) ms c))

end_state-IsConsistent :
    {Stats : Type 0} (no_stats : Stats) (r : KeeperRunner Stats) (m : Mode) (result : RunResult)
    → Compatible r.running_modes
    → r.is_running ≡ false
    → length r.running_modes ≡ 0
    → IsConsistent (end_state no_stats r m result)
end_state-IsConsistent no_stats r m (finished d) c h k = record {
  compatible = c;
  is_running = ground (arith, h, k);
  status = λ e. ground (arith, e, h);
}
end_state-IsConsistent no_stats r m (stopped d) c h k = record {
  compatible = c;
  is_running = ground (arith, h, k);
  status = λ e. ground (arith, e, h);
}

module _ {Stats : Type 0} (no_stats : Stats) where
  pub mark_running-IsConsistent :
      (r : KeeperRunner Stats) (m : Mode) (now : ℕ)
      → IsConsistent r
      → IsConsistent (mark_running no_stats r m now).0
  unfolding mark_running
  mark_running-IsConsistent r m now c = elim (Bool-cases (any_conflict r.running_modes m)) [
    | inl e ↦ rw e c
    | inr e ↦ rw e record {
      compatible = (e, c.compatible);
      is_running = ground arith;
      status = λ h. (refl, refl, refl);
    }
  ]

  pub finish_run-IsConsistent :
      (r : KeeperRunner Stats) (m : Mode) (now : ℕ) (stats : Stats) (result : RunResult)
      → IsConsistent r
      → IsConsistent (finish_run no_stats r m now stats result)
  unfolding finish_run
  finish_run-IsConsistent r m now stats result c =
      let modes = delete_mode m r.running_modes in
      let n = length-running modes in
      let k = Compatible-delete m r.running_modes c.compatible in
      elim (Bool-cases (ltb 0 (length (running_mode_list modes)))) [
        | inl e ↦
            rw e
              record { compatible = k; is_running = ground arith; status = λ h. (refl, refl, refl) }
        | inr e ↦ rw e (
            end_state-IsConsistent no_stats
              (record r {
                is_running = false;
                running_modes = modes;
                last_finished_at = some now;
                stats = stats;
              })
              m result k refl (ground (arith, e, n)))
      ]
