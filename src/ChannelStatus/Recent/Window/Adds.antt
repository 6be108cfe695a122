-- ===== src/ChannelStatus/Recent/Window/Adds.antt =====
-- backend/internal/app/channel_status.go: `add` alone, which `channelUsageRecentRequests` and its
-- callers run over the records of a window, and the snapshot that the page draws.
use cpa_helper_s.Prelude.{
  ℕ, zero, suc, ◌+◌, ◌-◌, ◌≡◌, ◌<◌, refl, ap, sym, ◌∙◌, inl, inr, List, [], ◌∷◌, ◌++◌, length,
  Option-cases, append-nil, append_assoc, replicate,
}
use cpa_helper_s.ChannelStatus.{RecentRequest}
use cpa_helper_s.ChannelStatus.Recent.{
  Buffer, Recorded, Clock, blank, put, raw_snapshot, snapshot, last_requests, read_items,
  empty_buffer, add, recent_of, recents_of,
}
use cpa_helper_s.ChannelStatus.Recent.Steps.{IsRing, window, raw_snapshot-window}
use cpa_helper_s.ChannelStatus.Recent.Window.{put-IsRing, window-put, last_requests-short}
use cpa_helper_s.ChannelStatus.Recent.Window.Puts.{
  last_requests-append, window-le, empty-IsRing, window-empty,
}

length-read_items :
    (count : ℕ) (items : List RecentRequest) (start index k : ℕ)
    → length (read_items count items start index k) ≡ k
length-read_items count items start index zero = refl
length-read_items count items start index (suc k) =
    ap suc (length-read_items count items start (index + 1) k)

length-raw_snapshot : (count : ℕ) (b : Buffer) → length (raw_snapshot count b) ≡ b.size
unfolding raw_snapshot
length-raw_snapshot count b = length-read_items count b.items _ 0 b.size

snapshot-of_raw :
    (count : ℕ) (b : Buffer) (kept : List RecentRequest)
    → raw_snapshot count b ≡ kept
    → snapshot count b ≡ replicate (count - length kept) blank ++ kept
unfolding snapshot
snapshot-of_raw count b kept e =
    ap (λ n. replicate (count - n) blank ++ raw_snapshot count b)
      (sym (length-raw_snapshot count b))
    ∙ ap (λ rs. replicate (count - length rs) blank ++ rs) e

module _ (count : ℕ) (clock : Clock) where
  abbrev pub add_all : List Recorded → Buffer → Buffer
  add_all [] b = b
  add_all (r ∷ rs) b = add_all rs (add count clock r b)

  raw_snapshot-add_all :
      (rs : List Recorded) (b : Buffer)
      → IsRing count b
      → raw_snapshot count (add_all rs b)
        ≡ last_requests count (window count b ++ recents_of clock rs)
  unfolding add
  raw_snapshot-add_all [] b ring =
      raw_snapshot-window count b ring
      ∙ rw (append-nil (window count b))
          (sym (last_requests-short count (window count b) (window-le count b ring)))
  raw_snapshot-add_all (r ∷ rs) b ring = elim (Option-cases r.timestamp) [
    | inl e ↦ rw (add_all, e) (raw_snapshot-add_all rs b ring)
    | inr (t, e) ↦
        let q = recent_of clock r t in
        rw (add_all, e)
          (raw_snapshot-add_all rs (put count q b) (put-IsRing count q b ring)
            ∙ ap (λ w. last_requests count (w ++ recents_of clock rs)) (window-put count q b ring)
            ∙ last_requests-append count (window count b ++ q ∷ []) (recents_of clock rs)
            ∙ ap (last_requests count)
                (append_assoc (window count b) (q ∷ []) (recents_of clock rs)))
  ]

  -- After records are added to an empty ring, its snapshot is the last `count` of those that have a
  -- time, in the order they were added, after as many blank requests as `count` needs; the ring has
  -- places.
  snapshot-add_all :
      (positive : 0 < count) (rs : List Recorded)
      → snapshot count (add_all rs (empty_buffer count)) ≡ (
          let kept = last_requests count (recents_of clock rs) in
          replicate (count - length kept) blank ++ kept)
  snapshot-add_all positive rs = snapshot-of_raw count (add_all rs (empty_buffer count)) _ (
      raw_snapshot-add_all rs (empty_buffer count) (empty-IsRing count positive)
      ∙ rw (window-empty count positive) refl)
