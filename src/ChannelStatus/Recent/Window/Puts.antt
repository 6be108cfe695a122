-- ===== src/ChannelStatus/Recent/Window/Puts.antt =====
-- backend/internal/app/channel_status.go: requests put on a ring one after the other, and
-- `replace`.
use cpa_helper_s.Prelude.{
  ℕ, zero, suc, ◌-◌, ◌≡◌, ◌≤◌, ◌<◌, inl, inr, refl, ap, sym, ◌∙◌, Bool, List, [], ◌∷◌, ◌++◌, length,
  drop, take, arith, Bool-cases, append-nil, append_assoc, length-replicate, length-append,
  length-take, length-drop, drop-drop, lt→ltb,
}
use cpa_helper_s.ChannelStatus.{RecentRequest}
use cpa_helper_s.ChannelStatus.Recent.{
  Buffer, blank, put, put_all, replace, last_requests, empty_buffer, filter, has_time,
}
use cpa_helper_s.ChannelStatus.Recent.Steps.{IsRing, window}
use cpa_helper_s.ChannelStatus.Recent.Window.{put-IsRing, window-put, last_requests-short}

pub drop-append :
    (n : ℕ) (rs qs : List RecentRequest) → n ≤ length rs → drop n rs ++ qs ≡ drop n (rs ++ qs)
drop-append zero rs qs h = refl
drop-append (suc n) [] qs h = absurd (omega arith)
drop-append (suc n) (r ∷ rs) qs h = drop-append n rs qs (omega arith)

pub length-filter-le :
    (p : RecentRequest → Bool) (rs : List RecentRequest) → length (filter p rs) ≤ length rs
length-filter-le p [] = omega arith
length-filter-le p (r ∷ rs) = ground (arith, length-filter-le p rs)

module _ (count : ℕ) where
  pub last_requests-append :
      (rs qs : List RecentRequest)
      → last_requests count (last_requests count rs ++ qs) ≡ last_requests count (rs ++ qs)
  last_requests-append rs qs =
      let k = length rs - count in
      rw (drop-append k rs qs (omega arith)) (
        drop-drop (length (drop k (rs ++ qs)) - count) k (length (rs ++ qs) - count) (rs ++ qs)
          (omega (arith, length-drop k (rs ++ qs), length-append rs qs)))

  pub put_all-IsRing :
      (rs : List RecentRequest) (b : Buffer) → IsRing count b → IsRing count (put_all count rs b)
  put_all-IsRing [] b ring = ring
  put_all-IsRing (r ∷ rs) b ring = elim (Bool-cases (has_time r)) [
    | inl e ↦ rw (put_all, e) (put_all-IsRing rs (put count r b) (put-IsRing count r b ring))
    | inr e ↦ rw (put_all, e) (put_all-IsRing rs b ring)
  ]

  pub window-le : (b : Buffer) → IsRing count b → length (window count b) ≤ count
  window-le b ring = ground (
    arith,
    length-append (drop b.next b.items) (take b.next b.items),
    length-drop b.next b.items,
    length-take b.next b.items,
  )

  -- What is put on a ring, one request after the other.
  pub window-put_all :
      (rs : List RecentRequest) (b : Buffer)
      → IsRing count b
      → window count (put_all count rs b)
        ≡ last_requests count (window count b ++ filter has_time rs)
  window-put_all [] b ring =
      rw (append-nil (window count b))
        (sym (last_requests-short count (window count b) (window-le b ring)))
  window-put_all (r ∷ rs) b ring = elim (Bool-cases (has_time r)) [
    | inl e ↦
        rw (put_all, e)
          (window-put_all rs (put count r b) (put-IsRing count r b ring)
            ∙ ap (λ w. last_requests count (w ++ filter has_time rs)) (window-put count r b ring)
            ∙ last_requests-append (window count b ++ r ∷ []) (filter has_time rs)
            ∙ ap (last_requests count)
                (append_assoc (window count b) (r ∷ []) (filter has_time rs)))
    | inr e ↦ rw (put_all, e) (window-put_all rs b ring)
  ]

  pub empty-IsRing : 0 < count → IsRing count (empty_buffer count)
  empty-IsRing h = (length-replicate count blank, h, omega arith, inr refl)

  pub window-empty : 0 < count → window count (empty_buffer count) ≡ []
  window-empty h = rw (lt→ltb 0 count h) refl

  pub last_requests-le : (rs : List RecentRequest) → length (last_requests count rs) ≤ count
  last_requests-le rs = omega (arith, length-drop (length rs - count) rs)

  pub replace-IsRing : (rs : List RecentRequest) → 0 < count → IsRing count (replace count rs)
  unfolding replace
  replace-IsRing rs h =
      put_all-IsRing (last_requests count rs) (empty_buffer count) (empty-IsRing h)

  pub window-replace :
      (rs : List RecentRequest)
      → 0 < count
      → window count (replace count rs) ≡ filter has_time (last_requests count rs)
  unfolding replace
  window-replace rs h =
      window-put_all (last_requests count rs) (empty_buffer count) (empty-IsRing h)
      ∙ rw (window-empty h) (
          last_requests-short count (filter has_time (last_requests count rs)) (
            omega (arith, length-filter-le has_time (last_requests count rs), last_requests-le rs)))
