-- ===== src/Pricing/Table/Edits.antt =====
-- backend/internal/app/pricing.go: what `getPrice` reads after a price was made, changed or deleted.
use cpa_helper_s.Prelude.{
  ℕ, ◌≡◌, ap, sym, ◌∙◌, true, false, ◌&&◌, List, [], ◌∷◌, ◌==◌, if◌then◌else◌, arith,
}
use cpa_helper_s.Prelude.Text.{is_empty, trim_space}
use cpa_helper_s.Money.{finite_non_negative, amount_of}
use cpa_helper_s.Errors.{ok, err, require-eq-ok, ok-injective, not_found}
use cpa_helper_s.Pricing.{ModelPrice, manual}
use cpa_helper_s.Pricing.Table.{
  Payload, PriceTable, optional_price_ok, has_id, others, find_price, get_price, delete_price,
}

find_price-others :
    (id deleted : ℕ) (xs : List ModelPrice)
    → find_price id (others deleted xs)
      ≡ (if deleted == id then err not_found else find_price id xs)
find_price-others id deleted [] = ground arith
find_price-others id deleted (x ∷ xs) = ground (arith, find_price-others id deleted xs)

-- A price made by hand, from what the client sent: named, with prices that are finite and not negative.
abbrev pub IsPriceOf : Payload → ModelPrice → Type 0
IsPriceOf p x =
    (x.provider ≡ trim_space p.provider)
    × (x.model ≡ trim_space p.model)
    × (is_empty x.provider ≡ false)
    × (is_empty x.model ≡ false)
    × ((finite_non_negative p.input_per_million
          && finite_non_negative p.output_per_million
          && finite_non_negative p.cache_read_per_million
          && finite_non_negative p.cache_creation_per_million
          && optional_price_ok p.request_price)
        ≡ true)
    × (x.input_per_million ≡ amount_of p.input_per_million)
    × (x.output_per_million ≡ amount_of p.output_per_million)
    × (x.cache_read_per_million ≡ amount_of p.cache_read_per_million)
    × (x.cache_creation_per_million ≡ amount_of p.cache_creation_per_million)
    × (x.source ≡ manual)
    × (x.auto_synced ≡ false)

-- What is written: the price `x` of the payload under the number `id`, and nothing else.
abbrev pub IsWritten : PriceTable → ℕ → Payload → PriceTable × ModelPrice → Type 0
IsWritten t id payload (u, x) =
    (x.id ≡ id)
    × IsPriceOf payload x
    × ((other : ℕ) → get_price u other ≡ (if id == other then ok x else get_price t other))

deleted :
    (t : PriceTable) (id : ℕ) (u : PriceTable)
    → delete_price t id ≡ ok u
    → (has_id id t.rows ≡ true)
      × ((other : ℕ)
          → get_price u other ≡ (if id == other then err not_found else get_price t other))
unfolding delete_price get_price
deleted t id u e =
    let (there, done) = require-eq-ok (has_id id t.rows) not_found _ e in
    (
      there,
      (λ other.
          ap (λ w. find_price other w.rows) (sym (ok-injective done))
          ∙ find_price-others other id t.rows),
    )
