-- ===== src/ChannelStatus/Recent/Window.antt =====
-- backend/internal/app/channel_status.go: a write into the ring appends a request to those it holds
-- and lets go of the oldest, once the ring is full.
pub mod Puts
pub mod Runs
pub mod Adds
use cpa_helper_s.Prelude.{
  ℕ, zero, suc, ◌+◌, ◌-◌, ◌%◌, ◌≡◌, ◌≤◌, ◌<◌, ◌⊎◌, inl, inr, refl, ap, sym, ◌∙◌, Bool, true, false,
  List, [], ◌∷◌, ◌++◌, ltb, if◌then◌else◌, length, drop, take, arith, Bool-cases, append-nil,
  append_assoc, replicate, length-replicate, length-append, length-take, length-drop, take_all,
  drop_all,
}
use native.Mathlib.Nat.{mod-lt}
use cpa_helper_s.ChannelStatus.{RecentRequest}
use cpa_helper_s.ChannelStatus.Recent.{
  Buffer, blank, item_at, set_item, put, read_items, raw_snapshot, last_requests, empty_buffer,
}
use cpa_helper_s.ChannelStatus.Recent.Steps.{
  IsRing, window, mod-eq, length-set_item, take-set_item, drop-set_item, drop-cons,
  raw_snapshot-window,
}

pub last_requests-short :
    (count : ℕ) (rs : List RecentRequest) → length rs ≤ count → last_requests count rs ≡ rs
last_requests-short count rs h =
    let none_over : length rs - count ≡ 0 = omega arith in rw none_over refl

last_requests-over :
    (count : ℕ) (rs : List RecentRequest)
    → length rs ≡ suc count
    → last_requests count rs ≡ drop 1 rs
last_requests-over count rs h =
    let one_over : length rs - count ≡ 1 = omega arith in rw one_over refl

module _ (count : ℕ) where
  put-next :
      (next size : ℕ)
      → size < count
      → next ≡ size
      → (size + 1 ≡ count) ⊎ ((next + 1) % count ≡ size + 1)
  put-next next size h e = elim (Bool-cases (ltb (size + 1) count)) [
    | inl f ↦ inr (mod-eq count (next + 1) (size + 1) (ground arith) (omega arith))
    | inr f ↦ inl (ground arith)
  ]

  pub put-IsRing : (r : RecentRequest) (b : Buffer) → IsRing count b → IsRing count (put count r b)
  unfolding put
  put-IsRing r b ring =
      let lower = mod-lt (b.next + 1) {m = count} (omega arith) in
      let same = length-set_item b.items b.next r in
      elim (Bool-cases (ltb b.size count)) [
        | inl f ↦ rw f (
          same ∙ ring.0,
          lower,
          ground arith,
          put-next b.next b.size (ground arith) (ground arith),
        )
        | inr f ↦ rw f (same ∙ ring.0, lower, ring.2, inl (ground arith))
      ]

  -- The four ways a write goes: the next place is in the array or its end, the ring is full or not.
  window-put-filling :
      (items : List RecentRequest) (next after : ℕ) (r : RecentRequest)
      → length items ≡ count
      → suc next < count
      → after ≡ suc next
      → take after (set_item items next r) ≡ last_requests count (take next items ++ r ∷ [])
  window-put-filling items next after r l h e =
      rw (e, take-set_item items next r (omega arith))
        (sym (
          last_requests-short count (take next items ++ r ∷ [])
            (omega (arith, length-append (take next items) (r ∷ []), length-take next items))))

  window-put-filled :
      (items : List RecentRequest) (next after : ℕ) (r : RecentRequest)
      → length items ≡ count
      → suc next ≡ count
      → after ≡ 0
      → drop after (set_item items next r) ++ take after (set_item items next r)
        ≡ last_requests count (take next items ++ r ∷ [])
  window-put-filled items next after r l h e = rw e (
      append-nil (set_item items next r)
      ∙ sym (
          take_all (suc next) (set_item items next r) (omega (arith, length-set_item items next r)))
      ∙ take-set_item items next r (omega arith)
      ∙ sym (
          last_requests-short count (take next items ++ r ∷ [])
            (omega (arith, length-append (take next items) (r ∷ []), length-take next items))))

  -- A full ring drops the request at the next place.
  last_requests-full :
      (items : List RecentRequest) (next : ℕ) (r : RecentRequest)
      → length items ≡ count
      → next < count
      → last_requests count ((drop next items ++ take next items) ++ r ∷ [])
        ≡ drop (suc next) items ++ take next items ++ r ∷ []
  last_requests-full items next r l h =
      last_requests-over count ((drop next items ++ take next items) ++ r ∷ []) (
        omega (
          arith,
          length-append (drop next items ++ take next items) (r ∷ []),
          length-append (drop next items) (take next items),
          length-take next items,
          length-drop next items,
        ))
      ∙ rw (drop-cons items next (omega arith)) refl

  window-put-full :
      (items : List RecentRequest) (next after : ℕ) (r : RecentRequest)
      → length items ≡ count
      → next < count
      → (after ≡ suc next) ⊎ ((suc next ≡ count) × (after ≡ 0))
      → drop after (set_item items next r) ++ take after (set_item items next r)
        ≡ drop (suc next) items ++ take next items ++ r ∷ []
  window-put-full items next after r l h (inl e) =
      rw (e, drop-set_item items next r, take-set_item items next r (omega arith))
        (sym (append_assoc (drop (suc next) items) (take next items) (r ∷ [])))
  window-put-full items next after r l h (inr (e, z)) =
      rw (z, drop_all (suc next) items (omega arith))
        (append-nil (set_item items next r)
          ∙ sym (
              take_all (suc next) (set_item items next r)
                (omega (arith, length-set_item items next r)))
          ∙ take-set_item items next r (omega arith))

  next-full :
      (next : ℕ)
      → next < count
      → ((next + 1) % count ≡ suc next) ⊎ ((suc next ≡ count) × ((next + 1) % count ≡ 0))
  next-full next h = elim (Bool-cases (ltb (suc next) count)) [
    | inl f ↦ inl (mod-eq count (next + 1) (suc next) (ground arith) (omega arith))
    | inr f ↦ inr (ground arith, mod-eq count (next + 1) 0 (omega arith) (ground arith))
  ]

  pub window-put :
      (r : RecentRequest) (b : Buffer)
      → IsRing count b
      → window count (put count r b) ≡ last_requests count (window count b ++ r ∷ [])
  unfolding put
  window-put r b ring = elim (Bool-cases (ltb b.size count)) [
    | inl f ↦ elim (Bool-cases (ltb (b.size + 1) count)) [
      | inl g ↦
          rw (f, g)
            (window-put-filling b.items b.next ((b.next + 1) % count) r ring.0 (ground arith)
              (mod-eq count (b.next + 1) (suc b.next) (ground arith) (omega arith)))
      | inr g ↦
          rw (f, g)
            (window-put-filled b.items b.next ((b.next + 1) % count) r ring.0 (ground arith)
              (mod-eq count (b.next + 1) 0 (omega arith) (ground arith)))
    ]
    | inr f ↦
        rw (f, f)
          (window-put-full b.items b.next ((b.next + 1) % count) r ring.0 ring.1
              (next-full b.next ring.1)
            ∙ sym (last_requests-full b.items b.next r ring.0 ring.1))
  ]
