-- ===== src/Pricing/Table/Sync.antt =====
-- What an import of a price list does to the table, and what it reports.
use cpa_helper_s.Prelude.{
  ℕ, ◌+◌, ◌≡◌, refl, ap, ◌∙◌, true, ◌||◌, List, [], ◌∷◌, ◌++◌, Option, some, arith, length,
  Option-cases,
}
use cpa_helper_s.Prelude.Text.{Text}
use cpa_helper_s.Prelude.Int.{ℤ}
use cpa_helper_s.Pricing.{ModelPrice, litellm}
use cpa_helper_s.Pricing.Table.{
  Payload, PriceTable, same_name, is_taken, without_litellm, row, litellm_entry_to_price,
  SyncReport, RawData, valid_rows, count_invalid, insert_all, insert_or_ignore, sync_litellm_prices,
}

without-append :
    (x : ModelPrice) (xs : List ModelPrice)
    → x.source ≡ litellm
    → without_litellm (xs ++ x ∷ []) ≡ without_litellm xs
without-append x [] e = ground arith
without-append x (y ∷ xs) e = ground (arith, without-append x xs e)

without_idem : (xs : List ModelPrice) → without_litellm (without_litellm xs) ≡ without_litellm xs
without_idem [] = refl
without_idem (x ∷ xs) = ground (arith, without_idem xs)

insert_or_ignore-keeps :
    (s : PriceTable × SyncReport) (p : Text × Payload)
    → without_litellm (insert_or_ignore s p).0.rows ≡ without_litellm s.0.rows
unfolding insert_or_ignore
insert_or_ignore-keeps (t, r) (name, p) =
    ground (arith, without-append (row t.next_id p litellm (some name) true) t.rows)

insert_all-keeps :
    (s : PriceTable × SyncReport) (ps : List (Text × Payload))
    → without_litellm (insert_all s ps).0.rows ≡ without_litellm s.0.rows
unfolding insert_all
insert_all-keeps s [] = refl
insert_all-keeps s (p ∷ ps) =
    insert_all-keeps (insert_or_ignore s p) ps ∙ insert_or_ignore-keeps s p

abbrev counted : SyncReport → ℕ
counted r = r.imported + r.skipped_manual

insert_all-counted :
    (s : PriceTable × SyncReport) (ps : List (Text × Payload))
    → (counted (insert_all s ps).1 ≡ counted s.1 + length ps)
      × ((insert_all s ps).1.total_entries ≡ s.1.total_entries)
      × ((insert_all s ps).1.skipped_invalid ≡ s.1.skipped_invalid)
unfolding insert_all insert_or_ignore
insert_all-counted s [] = omega arith
insert_all-counted (t, r) ((name, p) ∷ ps) =
    ground (arith, insert_all-counted (insert_or_ignore (t, r) (name, p)) ps)

-- Rows up to their numbers.
abbrev pub contents : List ModelPrice → List ModelPrice
contents [] = []
contents (x ∷ xs) = record x { id = 0 } ∷ contents xs

contents-append : (xs ys : List ModelPrice) → contents (xs ++ ys) ≡ contents xs ++ contents ys
contents-append [] ys = refl
contents-append (x ∷ xs) ys = ap (λ l. record x { id = 0 } ∷ l) (contents-append xs ys)

is_taken-contents :
    (x : ModelPrice) (n : ℕ) (xs : List ModelPrice)
    → is_taken (record x { id = n }) xs ≡ is_taken x (contents xs)
is_taken-contents x n [] = refl
is_taken-contents x n (y ∷ xs) = ap (λ b. same_name x y || b) (is_taken-contents x n xs)

insert_or_ignore-contents :
    (s u : PriceTable × SyncReport) (p : Text × Payload)
    → contents s.0.rows ≡ contents u.0.rows
    → s.1 ≡ u.1
    → (contents (insert_or_ignore s p).0.rows ≡ contents (insert_or_ignore u p).0.rows)
      × ((insert_or_ignore s p).1 ≡ (insert_or_ignore u p).1)
unfolding insert_or_ignore row
insert_or_ignore-contents (t, r) (u, q) (name, p) e f =
    let x = row t.next_id p litellm (some name) true in
    let y = row u.next_id p litellm (some name) true in
    ground (
      arith,
      is_taken-contents x t.next_id t.rows,
      is_taken-contents x u.next_id u.rows,
      contents-append t.rows (x ∷ []),
      contents-append u.rows (y ∷ []),
    )

insert_all-contents :
    (s u : PriceTable × SyncReport) (ps : List (Text × Payload))
    → contents s.0.rows ≡ contents u.0.rows
    → s.1 ≡ u.1
    → (contents (insert_all s ps).0.rows ≡ contents (insert_all u ps).0.rows)
      × ((insert_all s ps).1 ≡ (insert_all u ps).1)
unfolding insert_all
insert_all-contents s u [] e f = (e, f)
insert_all-contents s u (p ∷ ps) e f =
    let (e', f') = insert_or_ignore-contents s u p e f in
    insert_all-contents (insert_or_ignore s p) (insert_or_ignore u p) ps e' f'

module _ (lower : ℕ → ℕ) (byte_length : Text → ℕ) (parse_float : Text → Option ℤ) where
  valid_rows-length :
      (raw : RawData)
      → length (valid_rows lower byte_length parse_float raw)
          + count_invalid lower byte_length parse_float raw
        ≡ length raw
  unfolding valid_rows count_invalid
  valid_rows-length [] = omega arith
  valid_rows-length ((name, e) ∷ raw) = ground (
    arith,
    valid_rows-length raw,
    Option-cases (litellm_entry_to_price lower byte_length parse_float name e),
  )

  abbrev start : PriceTable → RawData → PriceTable × SyncReport
  start t raw = (
    record t { rows = without_litellm t.rows },
    record {
      total_entries = length raw;
      imported = 0;
      skipped_manual = 0;
      skipped_invalid = count_invalid lower byte_length parse_float raw;
    },
  )

  module _ (t : PriceTable) (raw : RawData) where
    -- An import leaves the prices that were made by hand as they were, in their order; it accounts
    -- for each entry of the list once, as imported, as skipped for a name that is taken, or as
    -- invalid.
    pub sync_litellm_prices-keeps_manual :
        let (u, report) = sync_litellm_prices lower byte_length parse_float t raw in
        (without_litellm u.rows ≡ without_litellm t.rows)
        × (report.imported + report.skipped_manual + report.skipped_invalid ≡ report.total_entries)
        × (report.total_entries ≡ length raw)
    unfolding sync_litellm_prices
    sync_litellm_prices-keeps_manual =
        let rows = valid_rows lower byte_length parse_float raw in
        let base = start t raw in
        let (total, entries, invalid) = insert_all-counted base rows in
        (
          insert_all-keeps base rows ∙ without_idem t.rows,
          omega (arith, total, entries, invalid, valid_rows-length raw),
          entries,
        )

    -- Importing the same list again changes nothing but the numbers of the imported rows, and
    -- reports the same counts.
    sync_litellm_prices-again :
        let (u, first) = sync_litellm_prices lower byte_length parse_float t raw in
        let (v, second) = sync_litellm_prices lower byte_length parse_float u raw in
        (contents v.rows ≡ contents u.rows) × (second ≡ first)
    unfolding sync_litellm_prices
    sync_litellm_prices-again =
        let rows = valid_rows lower byte_length parse_float raw in
        let u = (insert_all (start t raw) rows).0 in
        let same : without_litellm u.rows ≡ without_litellm t.rows =
          insert_all-keeps (start t raw) rows ∙ without_idem t.rows in
        insert_all-contents (start u raw) (start t raw) rows (ap contents same) refl
