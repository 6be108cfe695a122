-- ===== src/ChannelStatus/Recent/Window/Runs.antt =====
-- backend/internal/app/channel_status.go: any run of `add`, `merge` and `pruneBefore` on the ring,
-- against the same run on a list of at most `count` requests.
use cpa_helper_s.Prelude.{
  ℕ, ◌≡◌, ◌<◌, inl, inr, refl, sym, ◌∙◌, true, none, List, [], ◌∷◌, ◌++◌, arith, Bool-cases,
  Option-cases, append-nil,
}
use cpa_helper_s.Prelude.Text.{Text, is_empty, trim_space}
use cpa_helper_s.ChannelStatus.{RecentRequest}
use cpa_helper_s.ChannelStatus.Recent.{
  Buffer, Recorded, Clock, raw_snapshot, last_requests, empty_buffer, filter, has_time, add, merge,
  prune_before, recent_of, recents_of, is_recent, less, stable_sort,
}
use cpa_helper_s.ChannelStatus.Recent.Steps.{IsRing, window, raw_snapshot-window}
use cpa_helper_s.ChannelStatus.Recent.Window.{put-IsRing, window-put, last_requests-short}
use cpa_helper_s.ChannelStatus.Recent.Window.Puts.{
  length-filter-le, window-le, empty-IsRing, window-empty, replace-IsRing, window-replace,
}

-- A step of a run, by what changes the ring.
pub data Change : Type 0 where
  added : Recorded → Change
  merged : List Recorded → Change
  pruned : ℕ → Change

module _ (count : ℕ) (clock : Clock) where
  abbrev pub change : Change → Buffer → Buffer
  change (added r) b = add count clock r b
  change (merged rs) b = merge count clock rs b
  change (pruned cutoff) b = prune_before count clock cutoff b

  abbrev pub run : List Change → Buffer → Buffer
  run [] b = b
  run (c ∷ cs) b = run cs (change c b)

  -- The same on a list of requests, oldest first.
  abbrev pub list_change : Change → List RecentRequest → List RecentRequest
  list_change (added r) qs = last_requests count (qs ++ recents_of clock (r ∷ []))
  list_change (merged []) qs = qs
  list_change (merged (r ∷ rs)) qs =
      filter has_time
        (last_requests count (stable_sort (less clock) (qs ++ recents_of clock (r ∷ rs))))
  list_change (pruned cutoff) qs = filter (is_recent clock cutoff) qs

  abbrev pub list_run : List Change → List RecentRequest → List RecentRequest
  list_run [] qs = qs
  list_run (c ∷ cs) qs = list_run cs (list_change c qs)

  -- `parseDBTime` refuses a text without a visible character.
  abbrev pub RefusesBlank : Type 0
  RefusesBlank = (t : Text) → is_empty (trim_space t) ≡ true → clock.parse_db_time t ≡ none

  timed-of_recent :
      RefusesBlank
      → (cutoff : ℕ) (r : RecentRequest) → is_recent clock cutoff r ≡ true
      → has_time r ≡ true
  timed-of_recent law cutoff r h = elim (Bool-cases (is_empty (trim_space r.timestamp))) [
    | inl e ↦ let refused = law r.timestamp e in absurd (ground arith)
    | inr e ↦ rw e refl
  ]

  filter-timed :
      RefusesBlank
      → (cutoff : ℕ) (rs : List RecentRequest)
      → filter has_time (filter (is_recent clock cutoff) rs) ≡ filter (is_recent clock cutoff) rs
  filter-timed law cutoff [] = refl
  filter-timed law cutoff (r ∷ rs) = elim (Bool-cases (is_recent clock cutoff r)) [
    | inl e ↦ rw (e, timed-of_recent law cutoff r e, filter-timed law cutoff rs) refl
    | inr e ↦ rw (e, filter-timed law cutoff rs) refl
  ]

  change-IsRing : (c : Change) (b : Buffer) → 0 < count → IsRing count b → IsRing count (change c b)
  unfolding add merge prune_before
  change-IsRing (added r) b h ring = elim (Option-cases r.timestamp) [
    | inl e ↦ rw e ring
    | inr (t, e) ↦ rw e (put-IsRing count (recent_of clock r t) b ring)
  ]
  change-IsRing (merged []) b h ring = ring
  change-IsRing (merged (r ∷ rs)) b h ring = replace-IsRing count _ h
  change-IsRing (pruned cutoff) b h ring = replace-IsRing count _ h

  window-change :
      RefusesBlank
      → (c : Change) (b : Buffer) → 0 < count
      → IsRing count b
      → window count (change c b) ≡ list_change c (window count b)
  unfolding add merge prune_before
  window-change law (added r) b h ring = elim (Option-cases r.timestamp) [
    | inl e ↦
        rw (e, append-nil (window count b))
          (sym (last_requests-short count (window count b) (window-le count b ring)))
    | inr (t, e) ↦ rw e (window-put count (recent_of clock r t) b ring)
  ]
  window-change law (merged []) b h ring = refl
  window-change law (merged (r ∷ rs)) b h ring =
      rw (raw_snapshot-window count b ring) (window-replace count _ h)
  window-change law (pruned cutoff) b h ring =
      let kept = filter (is_recent clock cutoff) (window count b) in
      rw (raw_snapshot-window count b ring) (
        window-replace count kept h
        ∙ rw
            (last_requests-short count kept (
              omega (
                arith,
                length-filter-le (is_recent clock cutoff) (window count b),
                window-le count b ring,
              )))
            (filter-timed law cutoff (window count b)))

  run-window :
      RefusesBlank
      → (cs : List Change) (b : Buffer) → 0 < count
      → IsRing count b
      → raw_snapshot count (run cs b) ≡ list_run cs (window count b)
  run-window law [] b h ring = raw_snapshot-window count b ring
  run-window law (c ∷ cs) b h ring =
      rw (sym (window-change law c b h ring))
        (run-window law cs (change c b) h (change-IsRing c b h ring))

  -- After any run of `add`, `merge` and `pruneBefore` that starts with an empty ring, the raw snapshot
  -- is what the same run makes of an empty list, where `add` appends a request that has a time, `merge`
  -- sorts what is there and what is new, and both keep the last `count` requests, and `pruneBefore`
  -- filters; the ring has places and `parseDBTime` refuses a blank text.
  pub run-raw_snapshot :
      (law : RefusesBlank) (positive : 0 < count) (cs : List Change)
      → raw_snapshot count (run cs (empty_buffer count)) ≡ list_run cs []
  run-raw_snapshot law positive cs =
      rw (sym (window-empty count positive))
        (run-window law cs (empty_buffer count) positive (empty-IsRing count positive))
