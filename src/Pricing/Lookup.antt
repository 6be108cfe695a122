-- ===== src/Pricing/Lookup.antt =====
-- The price that `findMatchingPrice` finds among the rows of the price table.
use cpa_helper_s.Prelude.{
  ℕ, ◌≡◌, ◌⊎◌, inl, inr, refl, sym, ap, ◌∙◌, true, false, ◌||◌, List, [], ◌∷◌, Option, none, some,
  arith, Bool-cases, Option-cases, ◌≢◌,
}
use mathlib.Core.Path.{subst}
use cpa_helper_s.Prelude.Text.{Text, codes, text_eq_iff, is_empty, normal}
use cpa_helper_s.Pricing.{
  ModelPrice, PriceMap, Key, key_eq, price_at, price_key, fill_map, prices_by_key, price_candidates,
  first_price, find_matching_price, or_else,
}

-- `x` is one of the rows.
abbrev pub Among : ModelPrice → List ModelPrice → Type 0
Among x [] = ⊥
Among x (p ∷ ps) = (x ≡ p) ⊎ Among x ps

abbrev pub Chosen : Text → List Text → Type 0
Chosen c [] = ⊥
Chosen c (d ∷ ds) = (c ≡ d) ⊎ Chosen c ds

some-ne-none : (x : ModelPrice) → ◌≢◌ {A = Option ModelPrice} (some x) none
some-ne-none x e = cc

some-injective : {x y : ModelPrice} → ◌≡◌ {A = Option ModelPrice} (some x) (some y) → x ≡ y
some-injective e = cc

key_eq_iff : (j k : Key) → key_eq j k ≡ true → j ≡ k
key_eq_iff (p, m) (q, n) h = ground (arith, text_eq_iff p q, text_eq_iff m n)

key_eq_refl : (k : Key) → key_eq k k ≡ true
key_eq_refl (p, m) = ground (arith, text_eq_iff p p, text_eq_iff m m)

module _ (lower : ℕ → ℕ) where
  abbrev pub key_of : ModelPrice → Key
  key_of p = price_key lower p.provider p.model

  -- Every entry of a map is under the key of its price.
  abbrev pub Keyed : (ModelPrice → Type 0) → PriceMap → Type 0
  Keyed P [] = Unit
  Keyed P ((k, p) ∷ m) = ((k ≡ key_of p) × P p) × Keyed P m

  pub fill_map-Keyed :
      (P : ModelPrice → Type 0) (m : PriceMap) (ps : List ModelPrice)
      → Keyed P m
      → ((x : ModelPrice) → Among x ps → P x)
      → Keyed P (fill_map lower m ps)
  unfolding fill_map
  fill_map-Keyed P m [] k all = k
  fill_map-Keyed P m (p ∷ ps) k all =
      fill_map-Keyed P ((key_of p, p) ∷ m) ps ((refl, all p (inl refl)), k) (λ x a. all x (inr a))

  pub price_at-Keyed :
      (P : ModelPrice → Type 0) (k : Key) (m : PriceMap) (x : ModelPrice)
      → Keyed P m
      → price_at k m ≡ some x
      → (k ≡ key_of x) × P x
  unfolding price_at
  price_at-Keyed P k [] x h e = cc
  price_at-Keyed P k ((j, p) ∷ m) x h e = elim (Bool-cases (key_eq j k)) [
    | inl same ↦
        let q : p ≡ x = some-injective (rw same at e) in
        (sym (key_eq_iff j k same) ∙ h.0.0 ∙ ap key_of q, subst P q h.0.1)
    | inr other ↦ price_at-Keyed P k m x h.1 (rw other at e)
  ]

  pub price_at-fill_map :
      (k : Key) (m : PriceMap) (ps : List ModelPrice)
      → price_at k (fill_map lower m ps) ≡ none
      → (price_at k m ≡ none) × ((x : ModelPrice) → Among x ps → key_of x ≢ k)
  unfolding fill_map price_at
  price_at-fill_map k m [] e = (e, λ x a. absurd a)
  price_at-fill_map k m (p ∷ ps) e =
      let (head_misses, tail_misses) = price_at-fill_map k ((key_of p, p) ∷ m) ps e in
      elim (Bool-cases (key_eq (key_of p) k)) [
        | inl same ↦ absurd (some-ne-none p (rw same at head_misses))
        | inr other ↦ (rw other at head_misses, misses other tail_misses)
      ]
    where
      misses :
          key_eq (key_of p) k ≡ false
          → ((x : ModelPrice) → Among x ps → key_of x ≢ k)
          → (x : ModelPrice) → Among x (p ∷ ps)
          → key_of x ≢ k
      misses other rest x (inl e) same =
          cc (key_eq_refl k, subst (λ j. key_eq j k ≡ false) (ap key_of (sym e) ∙ same) other)
      misses other rest x (inr a) same = rest x a same

  first_price_sound :
      (P : ModelPrice → Type 0) (prices : PriceMap) (model : Text) (cs : List Text) (x : ModelPrice)
      → Keyed P prices
      → first_price prices model cs ≡ some x
      → P x × (normal lower x.model ≡ model) × Chosen (normal lower x.provider) cs
  unfolding first_price price_key
  first_price_sound P prices model [] x h e = absurd (some-ne-none x (sym e))
  first_price_sound P prices model (c ∷ cs) x h e =
      elim (Option-cases (price_at (c, model) prices)) [
        | inl miss ↦
            let (p, m, d) = first_price_sound P prices model cs x h (rw miss at e) in (p, m, inr d)
        | inr (y, hit) ↦
            let q : y ≡ x = some-injective (rw hit at e) in
            let (k, p) = price_at-Keyed P (c, model) prices x h (hit ∙ ap some q) in
            (p, sym (ap (λ t. t.1) k), inl (sym (ap (λ t. t.0) k)))
      ]

  -- The names under which a provider's prices are looked up, written out.
  abbrev pub ListedAs : Text → Text → Type 0
  ListedAs vendor provider =
      (vendor ≡ provider)
      ⊎ ((provider ≡ codes "codex") × (vendor ≡ codes "openai"))
      ⊎ ((provider ≡ codes "claude") × (vendor ≡ codes "anthropic"))

  candidates-ListedAs :
      (vendor provider : Text)
      → Chosen vendor (price_candidates lower provider)
      → ListedAs vendor provider
  unfolding price_candidates
  candidates-ListedAs vendor provider c =
      ground (arith, text_eq_iff provider (codes "codex"), text_eq_iff provider (codes "claude"))

  -- A price that is found is a row of the table, its model is the record's up to case and outer
  -- spaces, and its provider is the record's, or "openai" for "codex", or "anthropic" for "claude".
  pub find_matching_price_sound :
      (rows : List ModelPrice) (provider model : Text) (x : ModelPrice)
      → find_matching_price lower (prices_by_key lower rows) (some provider) (some model) ≡ some x
      → Among x rows
        × (normal lower x.model ≡ normal lower model)
        × ListedAs (normal lower x.provider) (normal lower provider)
  unfolding find_matching_price prices_by_key
  find_matching_price_sound rows provider model x e =
      elim (Bool-cases (is_empty (normal lower provider) || is_empty (normal lower model))) [
        | inl blank ↦ absurd (some-ne-none x (sym (rw blank at e)))
        | inr named ↦
            let (among, same, chosen) =
              first_price_sound (λ y. Among y rows) (fill_map lower [] rows) (normal lower model)
                (price_candidates lower (normal lower provider)) x
                (fill_map-Keyed (λ y. Among y rows) [] rows tt (λ y a. a)) (rw named at e) in
            (
              among,
              same,
              candidates-ListedAs (normal lower x.provider) (normal lower provider) chosen,
            )
      ]

  or_else-none : (a b : Option ModelPrice) → or_else a b ≡ none → a ≡ none
  or_else-none none b e = refl
  or_else-none (some y) b e = absurd (some-ne-none y e)

  -- If no price is found for a provider and a model that are not blank, then no row of the table has
  -- them, up to case and outer spaces.
  pub find_matching_price_complete :
      (rows : List ModelPrice) (provider model : Text)
      → is_empty (normal lower provider) ≡ false
      → is_empty (normal lower model) ≡ false
      → find_matching_price lower (prices_by_key lower rows) (some provider) (some model) ≡ none
      → (x : ModelPrice) → Among x rows
      → normal lower x.provider ≡ normal lower provider
      → normal lower x.model ≢ normal lower model
  unfolding find_matching_price prices_by_key price_key
  find_matching_price_complete rows provider model p m e x a vendor name =
      let named : (is_empty (normal lower provider) || is_empty (normal lower model)) ≡ false =
        ground arith in
      let first_misses = or_else-none _ _ (rw named at e) in
      (price_at-fill_map (normal lower provider, normal lower model) [] rows first_misses).1 x a
        (λ i. (vendor i, name i))
