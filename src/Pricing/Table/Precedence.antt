-- ===== src/Pricing/Table/Precedence.antt =====
-- Which row bills a record when two rows differ in the case of their names only.
use cpa_helper_s.Prelude.{
  ◌≡◌, inl, inr, refl, sym, ap, ◌∙◌, true, List, [], ◌∷◌, ◌++◌, Option, none, some, ℕ, arith,
  Option-cases,
}
use cpa_helper_s.Pricing.{ModelPrice, PriceMap, Key, price_at, fill_map, prices_by_key, or_else}
use cpa_helper_s.Pricing.Lookup.{Among, key_of, price_at-Keyed, fill_map-Keyed, price_at-fill_map}
use cpa_helper_s.Pricing.Table.{PriceTable, synced, not_synced, price_map}

or_else_assoc : (a b c : Option ModelPrice) → or_else (or_else a b) c ≡ or_else a (or_else b c)
or_else_assoc none b c = refl
or_else_assoc (some x) b c = refl

synced-auto :
    (rows : List ModelPrice) (x : ModelPrice) → Among x (synced rows) → x.auto_synced ≡ true
synced-auto [] x a = absurd a
synced-auto (y ∷ rows) x a = ground (arith, synced-auto rows x)

module _ (lower : ℕ → ℕ) where
  price_at-head :
      (k : Key) (p : ModelPrice) (m : PriceMap)
      → price_at k ((key_of lower p, p) ∷ m)
        ≡ or_else (price_at k ((key_of lower p, p) ∷ [])) (price_at k m)
  unfolding price_at
  price_at-head k p m = ground arith

  -- What was in the map counts only where the rows have no price.
  fill_map-or_else :
      (k : Key) (m : PriceMap) (ps : List ModelPrice)
      → price_at k (fill_map lower m ps)
        ≡ or_else (price_at k (fill_map lower [] ps)) (price_at k m)
  unfolding fill_map price_at
  fill_map-or_else k m [] = refl
  fill_map-or_else k m (p ∷ ps) =
      fill_map-or_else k ((key_of lower p, p) ∷ m) ps
      ∙ ap (or_else (price_at k (fill_map lower [] ps))) (price_at-head k p m)
      ∙ sym (or_else_assoc (price_at k (fill_map lower [] ps)) _ (price_at k m))
      ∙ ap (λ o. or_else o (price_at k m)) (sym (fill_map-or_else k ((key_of lower p, p) ∷ []) ps))

  fill_map-append :
      (m : PriceMap) (xs ys : List ModelPrice)
      → fill_map lower m (xs ++ ys) ≡ fill_map lower (fill_map lower m xs) ys
  unfolding fill_map
  fill_map-append m [] ys = refl
  fill_map-append m (x ∷ xs) ys = fill_map-append ((key_of lower x, x) ∷ m) xs ys

  -- If a synced row has a name, up to case and outer spaces, then a synced row is the price under
  -- that name, also where a row made by hand has the name too.
  pub price_map-synced :
      (t : PriceTable) (y : ModelPrice)
      → Among y (synced t.rows)
      → (z : ModelPrice) × (price_at (key_of lower y) (price_map lower t) ≡ some z)
        × (z.auto_synced ≡ true)
        × (key_of lower y ≡ key_of lower z)
  unfolding price_map prices_by_key
  price_map-synced t y a =
      let k = key_of lower y in
      let base = fill_map lower [] (not_synced t.rows) in
      elim (Option-cases (price_at k (fill_map lower [] (synced t.rows)))) [
        | inl miss ↦ absurd ((price_at-fill_map lower k [] (synced t.rows) miss).1 y a refl)
        | inr (z, hit) ↦
            let (same, among) =
              price_at-Keyed lower (λ x. Among x (synced t.rows)) k _ z
                (fill_map-Keyed lower (λ x. Among x (synced t.rows)) [] (synced t.rows) tt
                  (λ x b. b))
                hit in
            (
              z,
              ap (price_at k) (fill_map-append [] (not_synced t.rows) (synced t.rows))
                  ∙ fill_map-or_else k base (synced t.rows)
                  ∙ ap (λ o. or_else o (price_at k base)) hit,
              synced-auto t.rows z among,
              same,
            )
      ]
