-- ===== src/Body/Reading.antt =====
-- backend/internal/app/model_proxy_body.go, `readLimitedProxyBody`: a small body stays in memory, a
-- larger one goes to a temporary file, and one past the limit is refused.
use cpa_helper_s.Prelude.{
  ℕ, suc, ◌+◌, ◌-◌, ◌*◌, ◌^◌, ◌≡◌, ◌≤◌, ◌<◌, Bool, true, false, not, ◌&&◌, ◌||◌, ◌++◌, Option, none,
  some, [], leb, ltb, ◌==◌, if◌then◌else◌, length, arith, take, drop, take_all, take-append-drop,
  length-take, length-append,
}
use cpa_helper_s.Prelude.Text.{Text}

-- The request's body: `fails` if a read past its bytes gives an error that is not `io.EOF`.
pub record Source : Type 0 where
  pub bytes : Text
  pub fails : Bool

-- Which calls on the temporary file succeed, and what the file holds when the copying fails.
pub record Disk : Type 0 where
  pub creates : Bool
  pub chmods : Bool
  pub writes : Bool
  pub closes : Bool
  pub removes : Bool
  pub partial : Text

-- `modelProxyBody` with its size, `http.ErrBodyReadAfterClose`, or another error.
pub data Outcome : Type 0 where
  in_memory on_disk : Text → ℕ → Outcome
  too_large failed : Outcome

-- The outcome, and the temporary file that is left behind.
abbrev pub Read : Type 0
Read = Outcome × Option Text

-- `_ = os.Remove(path)`: a file that is not removed stays.
abbrev pub removed : Disk → Text → Option Text
removed disk content = if disk.removes then none else some content

-- From the temporary file on. `first` is what was copied into memory, `room` is `reader.N`.
unfoldable pub spill : ℕ → Source → Disk → Text → ℕ → Text → Read
spill body_limit source disk first room rest =
    if not disk.creates
    then (failed, none)
    else if not disk.chmods
    then (failed, removed disk [])
    else if not disk.writes || source.fails && ltb (length rest) room || not disk.closes
    then (failed, removed disk disk.partial)
    else if ltb body_limit (length first + length (take room rest))
        || room - length (take room rest) == 0
    then (too_large, removed disk (first ++ take room rest))
    else (
      on_disk (first ++ take room rest) (length first + length (take room rest)),
      some (first ++ take room rest),
    )

unfoldable pub read_within : ℕ → ℕ → Source → Disk → Read
unfolding spill
read_within memory_limit body_limit source disk =
    let first = take (suc memory_limit) source.bytes in
    let room = suc body_limit - length first in
    if source.fails && ltb (length source.bytes) (suc memory_limit)
    then (failed, none)
    else if leb (length first) memory_limit && ltb 0 room
    then (in_memory first (length first), none)
    else spill body_limit source disk first room (drop (suc memory_limit) source.bytes)

abbrev pub memory_body_limit : ℕ
memory_body_limit = 2 ^ 20

abbrev pub body_limit : ℕ
body_limit = 32 * 2 ^ 20

unfoldable pub read_limited_proxy_body : Source → Disk → Read
unfolding read_within
read_limited_proxy_body = read_within memory_body_limit body_limit

-- What may come back for these bytes: all of them or nothing, and a file exactly with its outcome,
-- but for one that was not removed.
abbrev pub IsComplete : ℕ → ℕ → Text → Disk → Read → Type 0
IsComplete m l bytes disk (in_memory b n, file) =
    (b ≡ bytes) × (n ≡ length bytes) × (length bytes ≤ m) × (file ≡ none)
IsComplete m l bytes disk (on_disk b n, file) =
    (b ≡ bytes) × (n ≡ length bytes) × (m < length bytes) × (length bytes ≤ l) × (file ≡ some bytes)
IsComplete m l bytes disk (too_large, file) =
    (l < length bytes) × (disk.removes ≡ true → file ≡ none)
IsComplete m l bytes disk (failed, file) = disk.removes ≡ true → file ≡ none

spill-IsComplete :
    (m l : ℕ) (source : Source) (disk : Disk) (first : Text) (room : ℕ) (rest : Text)
    → m < length first
    → room + length first ≡ suc l
    → IsComplete m l (first ++ rest) disk (spill l source disk first room rest)
unfolding spill
spill-IsComplete m l source disk first room rest h k =
    ground (arith, length-append first rest, length-take room rest, take_all room rest)

-- Whatever the reader and the disk do, with a memory limit below the body limit: a body that is
-- accepted is the whole request body with its length, in memory up to the memory limit and else in
-- the temporary file and within the body limit; only a longer body is refused as too large; and where
-- files can be removed, no temporary file is left behind but the accepted one.
pub read_within-IsComplete :
    (m l : ℕ) (source : Source) (disk : Disk)
    → m < l
    → IsComplete m l source.bytes disk (read_within m l source disk)
unfolding read_within
read_within-IsComplete m l source disk h =
    let first = take (suc m) source.bytes in
    let rest = drop (suc m) source.bytes in
    ground (
      arith,
      length-take (suc m) source.bytes,
      take_all (suc m) source.bytes,
      take-append-drop (suc m) source.bytes,
      spill-IsComplete m l source disk first (suc l - length first) rest,
    )

-- A reader and a disk that do not fail.
abbrev pub sound : Text → Source
sound bytes = record { bytes = bytes; fails = false }

abbrev pub working : Disk
working = record {
  creates = true;
  chmods = true;
  writes = true;
  closes = true;
  removes = true;
  partial = [];
}

spill-working :
    (l : ℕ) (bytes first : Text) (room : ℕ) (rest : Text)
    → room + length first ≡ suc l
    → spill l (sound bytes) working first room rest ≡ (
        if leb (length (first ++ rest)) l
        then (on_disk (first ++ rest) (length (first ++ rest)), some (first ++ rest))
        else (too_large, none))
unfolding spill
spill-working l bytes first room rest h =
    ground (arith, length-append first rest, length-take room rest, take_all room rest)

-- When neither the reader nor the disk fails, every body gets its decision: in memory up to the
-- memory limit, in the temporary file up to the body limit, and refused above.
pub read_within_decides :
    (m l : ℕ) (bytes : Text)
    → m < l
    → read_within m l (sound bytes) working ≡ (
        if leb (length bytes) m
        then (in_memory bytes (length bytes), none)
        else if leb (length bytes) l
        then (on_disk bytes (length bytes), some bytes)
        else (too_large, none))
unfolding read_within
read_within_decides m l bytes h =
    let first = take (suc m) bytes in
    ground (
      arith,
      length-take (suc m) bytes,
      take_all (suc m) bytes,
      take-append-drop (suc m) bytes,
      spill-working l bytes first (suc l - length first) (drop (suc m) bytes),
    )
