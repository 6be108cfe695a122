-- ===== src/ChannelStatus/Recent/Steps.antt =====
-- backend/internal/app/channel_status.go: the requests of a ring, oldest first, as two pieces of its
-- array, and what a write does to the pieces.
use cpa_helper_s.Prelude.{
  ℕ, zero, suc, ◌+◌, ◌-◌, ◌%◌, ◌≡◌, ◌≤◌, ◌<◌, ◌⊎◌, inl, inr, refl, ap, ◌∙◌, List, [], ◌∷◌, ◌++◌,
  ltb, if◌then◌else◌, length, drop, take, arith, Bool-cases, take_all, length-drop,
}
use native.Mathlib.Nat.{mod-eq_of_lt, mod-eq-sub-mod}
use cpa_helper_s.ChannelStatus.{RecentRequest}
use cpa_helper_s.ChannelStatus.Recent.{Buffer, item_at, set_item, read_items, raw_snapshot}

pub length-set_item :
    (rs : List RecentRequest) (n : ℕ) (q : RecentRequest) → length (set_item rs n q) ≡ length rs
length-set_item [] n q = refl
length-set_item (r ∷ rs) zero q = refl
length-set_item (r ∷ rs) (suc n) q = ap suc (length-set_item rs n q)

pub take-set_item :
    (rs : List RecentRequest) (n : ℕ) (q : RecentRequest)
    → n < length rs
    → take (suc n) (set_item rs n q) ≡ take n rs ++ q ∷ []
take-set_item [] n q h = absurd (omega arith)
take-set_item (r ∷ rs) zero q h = refl
take-set_item (r ∷ rs) (suc n) q h = ap (λ xs. r ∷ xs) (take-set_item rs n q (omega arith))

pub drop-set_item :
    (rs : List RecentRequest) (n : ℕ) (q : RecentRequest)
    → drop (suc n) (set_item rs n q) ≡ drop (suc n) rs
drop-set_item [] n q = refl
drop-set_item (r ∷ rs) zero q = refl
drop-set_item (r ∷ rs) (suc n) q = drop-set_item rs n q

pub drop-cons :
    (rs : List RecentRequest) (n : ℕ) → n < length rs → drop n rs ≡ item_at rs n ∷ drop (suc n) rs
drop-cons [] n h = absurd (omega arith)
drop-cons (r ∷ rs) zero h = refl
drop-cons (r ∷ rs) (suc n) h = drop-cons rs n (omega arith)

pub take-drop-cons :
    (rs : List RecentRequest) (n k : ℕ)
    → n < length rs
    → take (suc k) (drop n rs) ≡ item_at rs n ∷ take k (drop (suc n) rs)
take-drop-cons rs n k h = rw (drop-cons rs n h) refl

mod-eq_of_sub :
    (count a n : ℕ) → n < count → a - count ≡ n → a % count ≡ (a - count) % count → a % count ≡ n
mod-eq_of_sub count a n h e m = m ∙ ap (λ x. x % count) e ∙ mod-eq_of_lt h

pub mod-eq : (count a n : ℕ) → n < count → (a ≡ n) ⊎ (a ≡ count + n) → a % count ≡ n
mod-eq count a n h (inl e) = rw e (mod-eq_of_lt h)
mod-eq count a n h (inr e) =
    mod-eq_of_sub count a n h (omega arith) (mod-eq-sub-mod {n = a} {m = count} (omega arith))

module _ (count : ℕ) where
  -- Reads in one piece of the array, before or after it went round.
  read_items-piece :
      (items : List RecentRequest) (start index k n : ℕ)
      → length items ≡ count
      → (start + index ≡ n) ⊎ (start + index ≡ count + n)
      → n + k ≤ count
      → read_items count items start index k ≡ take k (drop n items)
  read_items-piece items start index zero n l e h = refl
  read_items-piece items start index (suc k) n l e h =
      rw
        (
          mod-eq count (start + index) n (omega arith) e,
          take-drop-cons items n k (omega arith),
          read_items-piece items start (index + 1) k (suc n) l (omega arith) (omega arith),
        )
        refl

  read_items-append :
      (items : List RecentRequest) (start index j k m n : ℕ)
      → index + j ≡ m
      → j + k ≡ n
      → read_items count items start index n
        ≡ read_items count items start index j ++ read_items count items start m k
  read_items-append items start index zero k m n e f =
      let n_k : n ≡ k = omega arith in
      let m_index : m ≡ index = omega arith in rw (n_k, m_index) refl
  read_items-append items start index (suc j) k m zero e f = absurd (omega arith)
  read_items-append items start index (suc j) k m (suc n) e f =
      ap (λ xs. item_at items ((start + index) % count) ∷ xs)
        (read_items-append items start (index + 1) j k m n (omega arith) (omega arith))

  -- The array keeps its length, and until the ring is full it is written from its start.
  abbrev pub IsRing : Buffer → Type 0
  IsRing b =
      (length b.items ≡ count)
      × (b.next < count)
      × (b.size ≤ count)
      × ((b.size ≡ count) ⊎ (b.next ≡ b.size))

  abbrev pub window : Buffer → List RecentRequest
  window b =
      if ltb b.size count then take b.next b.items else drop b.next b.items ++ take b.next b.items

  read-filling :
      (items : List RecentRequest) (next size start : ℕ)
      → length items ≡ count
      → size < count
      → next ≡ size
      → start ≡ 0
      → read_items count items start 0 size ≡ take next items
  read-filling items next size start l h e z =
      rw (e) (read_items-piece items start 0 size 0 l (omega arith) (omega arith))

  read-full :
      (items : List RecentRequest) (next size start : ℕ)
      → length items ≡ count
      → next < count
      → size ≡ count
      → start ≡ next
      → read_items count items start 0 size ≡ drop next items ++ take next items
  read-full items next size start l h e z =
      read_items-append items start 0 (count - next) next (count - next) size (omega arith)
        (omega arith)
      ∙ rw
          (
            read_items-piece items start 0 (count - next) next l (omega arith) (omega arith),
            read_items-piece items start (count - next) next 0 l (omega arith) (omega arith),
            take_all (count - next) (drop next items) (omega (arith, length-drop next items)),
          )
          refl

  pub raw_snapshot-window : (b : Buffer) → IsRing b → raw_snapshot count b ≡ window b
  unfolding raw_snapshot
  raw_snapshot-window b ring =
      let start = b.next + count - b.size in
      elim (Bool-cases (ltb b.size count)) [
        | inl f ↦ rw f (
            read-filling b.items b.next b.size (start % count) ring.0 (ground arith) (ground arith)
              (mod-eq count start 0 (omega arith) (ground arith)))
        | inr f ↦ rw f (
            read-full b.items b.next b.size (start % count) ring.0 ring.1 (ground arith)
              (mod-eq count start b.next ring.1 (ground arith)))
      ]
