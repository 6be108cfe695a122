-- ===== src/ChannelStatus/Recent/Tests.antt =====
-- A ring of three places, and the theorems at it.
use cpa_helper_s.Prelude.{
  ℕ, ◌≡◌, refl, true, false, Option, none, some, List, [], ◌∷◌, if◌then◌else◌, arith,
}
use cpa_helper_s.Prelude.Text.{Text, is_empty, trim_space}
use cpa_helper_s.ChannelStatus.Recent.{
  Recorded, Clock, blank, empty_buffer, raw_snapshot, snapshot, add, merge, prune_before,
  recents_of,
}
use cpa_helper_s.ChannelStatus.Recent.Window.Runs.{
  added, merged, pruned, Change, run, list_run, run-raw_snapshot,
}
use cpa_helper_s.ChannelStatus.Recent.Window.Adds.{add_all}

-- A time is written as a visible character and itself.
abbrev marked : Text → Option ℕ
marked [] = none
marked (c ∷ []) = none
marked (c ∷ t ∷ cs) = some t

abbrev parse_visible : Text → Option ℕ
parse_visible t = if is_empty (trim_space t) then none else marked t

abbrev clock : Clock
clock = record { db_time = λ t. b'@' ∷ t ∷ []; parse_db_time = parse_visible }

abbrev at : ℕ → Recorded
at t = record { id = t; timestamp = some t; failed = false }

abbrev untimed : Recorded
untimed = record { id = 9; timestamp = none; failed = true }

abbrev changes : List Change
changes =
    added (at 1)
    ∷ added untimed
    ∷ added (at 3)
    ∷ added (at 4)
    ∷ merged (at 2 ∷ untimed ∷ [])
    ∷ pruned 3
    ∷ []

parse_visible-blank : (t : Text) → is_empty (trim_space t) ≡ true → parse_visible t ≡ none
parse_visible-blank t h = rw h refl

run-raw_snapshot_example :
    raw_snapshot 3 (run 3 clock changes (empty_buffer 3)) ≡ list_run 3 clock changes []
run-raw_snapshot_example = run-raw_snapshot 3 clock parse_visible-blank (omega arith) changes

abbrev five : List Recorded
five = at 1 ∷ at 2 ∷ untimed ∷ at 3 ∷ at 4 ∷ []

first_is_blank :
    snapshot 3 (add_all 3 clock (at 7 ∷ at 8 ∷ []) (empty_buffer 3))
    ≡ blank ∷ recents_of clock (at 7 ∷ at 8 ∷ [])
unfolding snapshot add
first_is_blank = refl

merged_and_pruned :
    raw_snapshot 3 (run 3 clock changes (empty_buffer 3)) ≡ recents_of clock (at 3 ∷ at 4 ∷ [])
unfolding raw_snapshot add merge prune_before trim_space
merged_and_pruned = refl
