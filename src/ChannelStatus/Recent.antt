-- ===== src/ChannelStatus/Recent.antt =====
-- backend/internal/app/channel_status.go: `channelStatusRecentRequestBuffer`, the ring of a pool's
-- last requests. Its length, 360 in the code, is a parameter; the text of a time and what is read
-- of a text are those of `dbTime` and `parseDBTime`, as points of a time line.
mod Steps
pub mod Window
mod Tests
use cpa_helper_s.Prelude.{
  ℕ, zero, suc, ◌+◌, ◌-◌, ◌%◌, Bool, true, false, not, ◌&&◌, Option, none, some, List, [], ◌∷◌,
  ◌++◌, map, ltb, ◌==◌, if◌then◌else◌, length, drop, replicate,
}
use cpa_helper_s.Prelude.Text.{Text, is_empty, trim_space}
use cpa_helper_s.ChannelStatus.{RecentRequest}

abbrev pub channel_status_recent_request_count : ℕ
channel_status_recent_request_count = 360

-- The fields of a `UsageRecord` that the ring keeps; a zero time is none.
pub record Recorded : Type 0 where
  pub id : ℕ
  pub timestamp : Option ℕ
  pub failed : Bool

pub record Buffer : Type 0 where
  pub items : List RecentRequest
  pub next : ℕ
  pub size : ℕ

abbrev pub blank : RecentRequest
blank = record { id = 0; timestamp = []; failed = false }

abbrev pub item_at : List RecentRequest → ℕ → RecentRequest
item_at [] n = blank
item_at (r ∷ rs) zero = r
item_at (r ∷ rs) (suc n) = item_at rs n

abbrev pub set_item : List RecentRequest → ℕ → RecentRequest → List RecentRequest
set_item [] n q = []
set_item (r ∷ rs) zero q = q ∷ rs
set_item (r ∷ rs) (suc n) q = r ∷ set_item rs n q

abbrev pub filter : (RecentRequest → Bool) → List RecentRequest → List RecentRequest
filter p [] = []
filter p (r ∷ rs) = if p r then r ∷ filter p rs else filter p rs

abbrev pub has_time : RecentRequest → Bool
has_time r = not (is_empty (trim_space r.timestamp))

-- `sort.SliceStable`, as an insertion sort: a request is put behind those that it is not less than.
-- The list is kept with the greatest first.
abbrev pub insert_behind :
    (RecentRequest → RecentRequest → Bool) → RecentRequest → List RecentRequest → List RecentRequest
insert_behind less r [] = r ∷ []
insert_behind less r (q ∷ qs) = if less r q then q ∷ insert_behind less r qs else r ∷ q ∷ qs

abbrev pub sort_onto :
    (RecentRequest → RecentRequest → Bool)
    → List RecentRequest
    → List RecentRequest
    → List RecentRequest
sort_onto less sorted [] = sorted
sort_onto less sorted (r ∷ rs) = sort_onto less (insert_behind less r sorted) rs

abbrev pub reverse_onto : List RecentRequest → List RecentRequest → List RecentRequest
reverse_onto acc [] = acc
reverse_onto acc (r ∷ rs) = reverse_onto (r ∷ acc) rs

abbrev pub stable_sort :
    (RecentRequest → RecentRequest → Bool) → List RecentRequest → List RecentRequest
stable_sort less rs = reverse_onto [] (sort_onto less [] rs)

abbrev pub earlier : Option ℕ → Option ℕ → Option Bool
earlier (some t) (some u) = if t == u then none else some (ltb t u)
earlier _ _ = none

abbrev pub or_by_id : Option Bool → ℕ → ℕ → Bool
or_by_id (some b) i j = b
or_by_id none i j = ltb i j

-- `dbTime` and `parseDBTime`.
pub record Clock : Type 0 where
  pub db_time : ℕ → Text
  pub parse_db_time : Text → Option ℕ

module _ (count : ℕ) where
  abbrev pub empty_buffer : Buffer
  empty_buffer = record { items = replicate count blank; next = 0; size = 0 }

  -- What `add` and `replace` do with a request.
  unfoldable pub put : RecentRequest → Buffer → Buffer
  put r b = record {
    items = set_item (b.items) (b.next) r;
    next = (b.next + 1) % count;
    size = (if ltb (b.size) count then b.size + 1 else b.size);
  }

  abbrev pub read_items : List RecentRequest → ℕ → ℕ → ℕ → List RecentRequest
  read_items items start index zero = []
  read_items items start index (suc k) =
      item_at items ((start + index) % count) ∷ read_items items start (index + 1) k

  -- The sum is in an order that stays at or above 0.
  unfoldable pub raw_snapshot : Buffer → List RecentRequest
  raw_snapshot b = read_items b.items ((b.next + count - b.size) % count) 0 b.size

  unfoldable pub snapshot : Buffer → List RecentRequest
  unfolding raw_snapshot
  snapshot b = replicate (count - b.size) blank ++ raw_snapshot b

  abbrev pub last_requests : List RecentRequest → List RecentRequest
  last_requests rs = drop (length rs - count) rs

  abbrev pub put_all : List RecentRequest → Buffer → Buffer
  put_all [] b = b
  put_all (r ∷ rs) b = put_all rs (if has_time r then put r b else b)

  unfoldable pub replace : List RecentRequest → Buffer
  unfolding put
  replace rs = put_all (last_requests rs) empty_buffer

module _ (clock : Clock) where
  abbrev pub recent_of : Recorded → ℕ → RecentRequest
  recent_of r t = record { id = r.id; timestamp = clock.db_time t; failed = r.failed }

  abbrev pub keep_timed : Recorded → Option ℕ → List RecentRequest → List RecentRequest
  keep_timed r none rest = rest
  keep_timed r (some t) rest = recent_of r t ∷ rest

  abbrev pub recents_of : List Recorded → List RecentRequest
  recents_of [] = []
  recents_of (r ∷ rs) = keep_timed r (r.timestamp) (recents_of rs)

  -- The comparison of `merge`.
  abbrev pub less : RecentRequest → RecentRequest → Bool
  less q r =
      or_by_id (earlier (clock.parse_db_time q.timestamp) (clock.parse_db_time r.timestamp)) q.id
        r.id

  abbrev pub not_before : ℕ → Option ℕ → Bool
  not_before cutoff none = false
  not_before cutoff (some t) = not (ltb t cutoff)

  abbrev pub is_recent : ℕ → RecentRequest → Bool
  is_recent cutoff r = not_before cutoff (clock.parse_db_time r.timestamp)

module _ (count : ℕ) (clock : Clock) where
  abbrev pub add_at : Recorded → Option ℕ → Buffer → Buffer
  add_at r none b = b
  add_at r (some t) b = put count (recent_of clock r t) b

  unfoldable pub add : Recorded → Buffer → Buffer
  unfolding put
  add r b = add_at r r.timestamp b

  unfoldable pub merge : List Recorded → Buffer → Buffer
  unfolding raw_snapshot replace
  merge [] b = b
  merge (r ∷ rs) b =
      replace count (stable_sort (less clock) (raw_snapshot count b ++ recents_of clock (r ∷ rs)))

  unfoldable pub prune_before : ℕ → Buffer → Buffer
  unfolding raw_snapshot replace
  prune_before cutoff b = replace count (filter (is_recent clock cutoff) (raw_snapshot count b))
