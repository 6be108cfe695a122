-- ===== src/Pricing/Table/Unique.antt =====
-- The rows of the price table keep distinct names and distinct numbers through every change.
use cpa_helper_s.Prelude.{
  ℕ, suc, ◌≡◌, inl, inr, refl, ap, Bool, true, false, not, ◌&&◌, ◌||◌, List, [], ◌∷◌, ◌++◌, Option,
  none, some, ◌==◌, arith, contains, Distinct, Below, Bool-cases,
}
use mathlib.Core.Path.{subst}
use cpa_helper_s.Prelude.Text.{Text, text_eq_iff}
use cpa_helper_s.Prelude.Int.{ℤ}
use cpa_helper_s.Errors.{ok, >>=-eq-ok, require-eq-ok, ok-injective, conflict, not_found}
use cpa_helper_s.Pricing.{ModelPrice, manual, litellm}
use cpa_helper_s.Pricing.Table.{
  Payload, PriceTable, same_name, is_taken, has_id, others, replace, without_litellm, row,
  create_price, update_price, delete_price, SyncReport, RawData, valid_rows, insert_all,
  insert_or_ignore, sync_litellm_prices, validate_price_payload,
}

abbrev pub ids : List ModelPrice → List ℕ
ids [] = []
ids (x ∷ xs) = x.id ∷ ids xs

abbrev pub UniqueNames : List ModelPrice → Type 0
UniqueNames [] = Unit
UniqueNames (x ∷ xs) = (is_taken x xs ≡ false) × UniqueNames xs

pub record IsTable (t : PriceTable) : Type 0 where
  pub names : UniqueNames t.rows
  pub distinct : Distinct (ids t.rows)
  pub below : Below t.next_id (ids t.rows)

same_name_sym : (x y : ModelPrice) → same_name x y ≡ same_name y x
same_name_sym x y = ground (
  arith,
  text_eq_iff x.provider y.provider,
  text_eq_iff y.provider x.provider,
  text_eq_iff x.model y.model,
  text_eq_iff y.model x.model,
)

is_taken-append :
    (y x : ModelPrice) (ys : List ModelPrice)
    → is_taken y (ys ++ x ∷ []) ≡ (is_taken y ys || same_name y x)
is_taken-append y x [] = ground arith
is_taken-append y x (z ∷ ys) = ground (arith, is_taken-append y x ys)

UniqueNames-append :
    (x : ModelPrice) (xs : List ModelPrice)
    → UniqueNames xs
    → is_taken x xs ≡ false
    → UniqueNames (xs ++ x ∷ [])
UniqueNames-append x [] u h = (refl, tt)
UniqueNames-append x (y ∷ ys) u h =
    ground (arith, is_taken-append y x ys, same_name_sym x y, UniqueNames-append x ys u.1)

contains-ids-append :
    (n : ℕ) (x : ModelPrice) (xs : List ModelPrice)
    → contains n (ids (xs ++ x ∷ [])) ≡ (contains n (ids xs) || x.id == n)
contains-ids-append n x [] = ground arith
contains-ids-append n x (y ∷ xs) = ground (arith, contains-ids-append n x xs)

Distinct-append :
    (x : ModelPrice) (xs : List ModelPrice)
    → Distinct (ids xs)
    → Below x.id (ids xs)
    → Distinct (ids (xs ++ x ∷ []))
Distinct-append x [] d b = (refl, tt)
Distinct-append x (y ∷ ys) d b =
    ground (arith, contains-ids-append y.id x ys, Distinct-append x ys d.1 b.1)

Below-append :
    (x : ModelPrice) (xs : List ModelPrice)
    → Below x.id (ids xs)
    → Below (suc x.id) (ids (xs ++ x ∷ []))
Below-append x [] b = (omega arith, tt)
Below-append x (y ∷ ys) b = (omega arith, Below-append x ys b.1)

-- A row with the next number and a free name.
append-IsTable :
    (t : PriceTable) (x : ModelPrice)
    → IsTable t
    → x.id ≡ t.next_id
    → is_taken x t.rows ≡ false
    → IsTable (record { rows = t.rows ++ x ∷ []; next_id = suc t.next_id })
append-IsTable t x v e h = record {
  names = UniqueNames-append x t.rows v.names h;
  distinct = Distinct-append x t.rows v.distinct (rw e v.below);
  below = rw (← e) (Below-append x t.rows (rw e v.below));
}

is_taken-others :
    (id : ℕ) (x : ModelPrice) (xs : List ModelPrice)
    → is_taken x xs ≡ false
    → is_taken x (others id xs) ≡ false
is_taken-others id x [] h = refl
is_taken-others id x (y ∷ xs) h = ground (arith, is_taken-others id x xs)

contains-others :
    (id n : ℕ) (xs : List ModelPrice)
    → contains n (ids xs) ≡ false
    → contains n (ids (others id xs)) ≡ false
contains-others id n [] h = refl
contains-others id n (y ∷ xs) h = ground (arith, contains-others id n xs)

others-IsTable :
    (id n : ℕ) (xs : List ModelPrice)
    → IsTable (record { rows = xs; next_id = n })
    → IsTable (record { rows = others id xs; next_id = n })
others-IsTable id n [] v = v
others-IsTable id n (x ∷ xs) v =
    let rest =
      others-IsTable id n xs
        (record { names = v.names.1; distinct = v.distinct.1; below = v.below.1 }) in
    ground (arith, is_taken-others id x xs, contains-others id x.id xs)

others-absent : (id : ℕ) (xs : List ModelPrice) → contains id (ids xs) ≡ false → others id xs ≡ xs
others-absent id [] h = refl
others-absent id (x ∷ xs) h = ground (arith, others-absent id xs)

replace-absent :
    (y : ModelPrice) (xs : List ModelPrice) → contains y.id (ids xs) ≡ false → replace y xs ≡ xs
replace-absent y [] h = refl
replace-absent y (x ∷ xs) h = ground (arith, replace-absent y xs)

ids-replace : (y : ModelPrice) (xs : List ModelPrice) → ids (replace y xs) ≡ ids xs
ids-replace y [] = refl
ids-replace y (x ∷ xs) = ground (arith, ids-replace y xs)

is_taken-replace :
    (x y : ModelPrice) (xs : List ModelPrice)
    → is_taken x xs ≡ false
    → same_name x y ≡ false
    → is_taken x (replace y xs) ≡ false
is_taken-replace x y [] h k = refl
is_taken-replace x y (z ∷ xs) h k = ground (arith, is_taken-replace x y xs)

replace-UniqueNames :
    (y : ModelPrice) (xs : List ModelPrice)
    → UniqueNames xs
    → Distinct (ids xs)
    → is_taken y (others y.id xs) ≡ false
    → UniqueNames (replace y xs)
replace-UniqueNames y [] u d h = tt
replace-UniqueNames y (x ∷ xs) u d h = elim (Bool-cases (x.id == y.id)) [
  | inl same ↦
      let e : x.id ≡ y.id = ground arith in
      let absent : contains y.id (ids xs) ≡ false = rw (← e) d.0 in
      let free : is_taken y xs ≡ false = ground (arith, others-absent y.id xs absent) in
      rw (same, replace-absent y xs absent) (free, u.1)
  | inr other ↦
      let rest = replace-UniqueNames y xs u.1 d.1 in
      ground (arith, is_taken-replace x y xs, same_name_sym x y)
]

not-eq-true : (b : Bool) → not b ≡ true → b ≡ false
not-eq-true b h = ground arith

-- A price that is created without an error leaves a table in which no two rows have one number or one
-- name, and all numbers are below the next one, where this held before.
create_price-IsTable :
    (t : PriceTable) (payload : Payload) {u : PriceTable} {x : ModelPrice}
    → IsTable t
    → create_price t payload ≡ ok (u, x)
    → IsTable u
unfolding create_price
create_price-IsTable t payload v e =
    let (p, _, wrote) = >>=-eq-ok (validate_price_payload payload) _ e in
    let x = row t.next_id p manual none false in
    let (free, done) = require-eq-ok (not (is_taken x t.rows)) conflict _ wrote in
    subst IsTable (ap (λ r. r.0) (ok-injective done))
      (append-IsTable t x v refl (not-eq-true (is_taken x t.rows) free))

-- Overwriting a row without an error, with any new name, keeps the table's numbers and names distinct
-- and its numbers below the next one.
update_price-IsTable :
    (t : PriceTable) (id : ℕ) (payload : Payload) {u : PriceTable} {x : ModelPrice}
    → IsTable t
    → update_price t id payload ≡ ok (u, x)
    → IsTable u
unfolding update_price
update_price-IsTable t id payload v e =
    let (p, _, wrote) = >>=-eq-ok (validate_price_payload payload) _ e in
    let x = row id p manual none false in
    let (free, found) =
      require-eq-ok (not (has_id id t.rows && is_taken x (others id t.rows))) conflict _ wrote in
    let (there, done) = require-eq-ok (has_id id t.rows) not_found _ found in
    let unused : is_taken x (others id t.rows) ≡ false =
      rw there at (not-eq-true (has_id id t.rows && is_taken x (others id t.rows)) free) in
    subst IsTable (ap (λ r. r.0) (ok-injective done)) (record {
      names = replace-UniqueNames x t.rows v.names v.distinct unused;
      distinct = rw (ids-replace x t.rows) v.distinct;
      below = rw (ids-replace x t.rows) v.below;
    })

-- A deletion that succeeds keeps the table's numbers and names distinct and its numbers below the next
-- one.
delete_price-IsTable :
    (t : PriceTable) (id : ℕ) {u : PriceTable} → IsTable t → delete_price t id ≡ ok u → IsTable u
unfolding delete_price
delete_price-IsTable t id v e = ground (arith, others-IsTable id t.next_id t.rows v)

contains-without :
    (n : ℕ) (xs : List ModelPrice)
    → contains n (ids xs) ≡ false
    → contains n (ids (without_litellm xs)) ≡ false
contains-without n [] h = refl
contains-without n (x ∷ xs) h = ground (arith, contains-without n xs)

is_taken-without :
    (x : ModelPrice) (xs : List ModelPrice)
    → is_taken x xs ≡ false
    → is_taken x (without_litellm xs) ≡ false
is_taken-without x [] h = refl
is_taken-without x (y ∷ xs) h = ground (arith, is_taken-without x xs)

without-IsTable :
    (n : ℕ) (xs : List ModelPrice)
    → IsTable (record { rows = xs; next_id = n })
    → IsTable (record { rows = without_litellm xs; next_id = n })
without-IsTable n [] v = v
without-IsTable n (x ∷ xs) v =
    let rest =
      without-IsTable n xs
        (record { names = v.names.1; distinct = v.distinct.1; below = v.below.1 }) in
    ground (arith, is_taken-without x xs, contains-without x.id xs)

insert_or_ignore-IsTable :
    (s : PriceTable × SyncReport) (p : Text × Payload)
    → IsTable s.0
    → IsTable (insert_or_ignore s p).0
unfolding insert_or_ignore
insert_or_ignore-IsTable (t, r) (name, p) v =
    let x = row t.next_id p litellm (some name) true in
    elim (Bool-cases (is_taken x t.rows)) [
      | inl taken ↦ rw taken v
      | inr free ↦ rw free (append-IsTable t x v refl free)
    ]

insert_all-IsTable :
    (s : PriceTable × SyncReport) (ps : List (Text × Payload))
    → IsTable s.0
    → IsTable (insert_all s ps).0
unfolding insert_all
insert_all-IsTable s [] v = v
insert_all-IsTable s (p ∷ ps) v =
    insert_all-IsTable (insert_or_ignore s p) ps (insert_or_ignore-IsTable s p v)

module _ (lower : ℕ → ℕ) (byte_length : Text → ℕ) (parse_float : Text → Option ℤ) where
  -- The import of any price list keeps the table's names and numbers distinct, and its numbers below
  -- the next one.
  sync_litellm_prices-IsTable :
      (t : PriceTable) (raw : RawData)
      → IsTable t
      → IsTable (sync_litellm_prices lower byte_length parse_float t raw).0
  unfolding sync_litellm_prices
  sync_litellm_prices-IsTable t raw v =
      insert_all-IsTable _ (valid_rows lower byte_length parse_float raw)
        (without-IsTable t.next_id t.rows v)
