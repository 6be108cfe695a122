-- ===== src/AuthPools/Access/Revoked.antt =====
-- backend/internal/app/auth_pools.go: the rows of bindings that `replaceAuthPoolAccess` leaves.
use cpa_helper_s.Prelude.{
  ◌≡◌, refl, ap, sym, ◌∙◌, Bool, true, false, not, ◌&&◌, ◌||◌, Option, none, some, List, [], ◌∷◌,
  if◌then◌else◌, arith, inl, inr, Bool-cases, Option-cases, All, All-map,
}
use cpa_helper_s.Prelude.Int.{ℤ}
use cpa_helper_s.Prelude.Text.{Text, text_eq, text_eq_iff, text_eq_refl, text_eq_comm}
use cpa_helper_s.AuthPools.{all_users}
use cpa_helper_s.AuthPools.Database.{
  Database, Key, User, Row, AuthPoolBinding, owner, pool_row, is_some,
}
use cpa_helper_s.AuthPools.Access.{
  is_revoked_owner, joined, revoked_rows, has_hash, without_revoked, replaced,
  auth_pool_bindings_revoked_by_visibility,
}
use cpa_helper_s.AuthPools.Access.Replaced.{
  may_hold, is_row_allowed, Exempt, is_exempt, AllAllowed, may_hold-kept, may_hold-no_row,
  is_row_allowed-other, after,
}

-- Every row of a pool is of a key whose owner may use it.
abbrev pub PoolAllowed : Text → Database → Type 0
PoolAllowed pool db =
    All (λ b. (not (text_eq b.pool_id pool) || is_row_allowed db b) ≡ true) db.bindings

module _ (db : Database) (pool v : Text) (ids : List ℤ) where
  abbrev is_selected : Row → Bool
  is_selected b = text_eq b.pool_id pool && is_revoked_owner v ids (owner db b.api_key_hash)

  -- The selected rows are among those that are revoked.
  abbrev Covered : List AuthPoolBinding → List Row → Type 0
  Covered revoked = All (λ b. is_selected b ≡ true → has_hash b.api_key_hash revoked ≡ true)

  has_hash-joined :
      (hash : Text) (b : Row) (o : Option (Key × User)) (revoked : List AuthPoolBinding)
      → has_hash hash revoked ≡ true
      → has_hash hash (joined b o revoked) ≡ true
  has_hash-joined hash b none revoked h = h
  has_hash-joined hash b (some (k, u)) revoked h = ground arith

  Covered-joined :
      (b : Row) (o : Option (Key × User)) (revoked : List AuthPoolBinding) (bs : List Row)
      → Covered revoked bs
      → Covered (joined b o revoked) bs
  Covered-joined b o revoked [] all = tt
  Covered-joined b o revoked (c ∷ bs) all = (
    (λ h. has_hash-joined c.api_key_hash b o revoked (all.0 h)),
    Covered-joined b o revoked bs all.1,
  )

  has_hash-own :
      (b : Row) (o : Option (Key × User)) (revoked : List AuthPoolBinding)
      → is_revoked_owner v ids o ≡ true
      → has_hash b.api_key_hash (joined b o revoked) ≡ true
  has_hash-own b none revoked h = cc
  has_hash-own b (some (k, u)) revoked h = rw (text_eq_refl b.api_key_hash) refl

  selected-Covered :
      (b : Row) (bs : List Row) (rest : List AuthPoolBinding) (t : Bool)
      → is_selected b ≡ t
      → Covered rest bs
      → Covered (if t then joined b (owner db b.api_key_hash) rest else rest) (b ∷ bs)
  selected-Covered b bs rest true e all = (
    (λ h. has_hash-own b (owner db b.api_key_hash) rest (ground arith)),
    Covered-joined b (owner db b.api_key_hash) rest bs all,
  )
  selected-Covered b bs rest false e all = ((λ h. absurd (ground arith)), all)

  revoked_rows-Covered : (bs : List Row) → Covered (revoked_rows db pool v ids bs) bs
  unfolding revoked_rows
  revoked_rows-Covered [] = tt
  revoked_rows-Covered (b ∷ bs) =
      selected-Covered b bs (revoked_rows db pool v ids bs) (is_selected b) refl
        (revoked_rows-Covered bs)

  -- Which rows stay.
  abbrev Stays : List AuthPoolBinding → Row → Type 0
  Stays revoked b =
      text_eq b.pool_id pool ≡ true
      → text_eq v all_users ≡ false
      → is_revoked_owner v ids (owner db b.api_key_hash) ≡ false

  without_revoked-Stays :
      (revoked : List AuthPoolBinding) (bs : List Row)
      → (text_eq v all_users ≡ false → Covered revoked bs)
      → All (Stays revoked) (without_revoked pool revoked bs)
  without_revoked-Stays revoked [] all = tt
  without_revoked-Stays revoked (b ∷ bs) all =
      let rest = without_revoked-Stays revoked bs (λ n. (all n).1) in
      elim (Bool-cases (text_eq b.pool_id pool && has_hash b.api_key_hash revoked)) [
        | inl e ↦ rw (without_revoked, e) rest
        | inr e ↦
            rw (without_revoked, e) ((λ same n. let covered = (all n).0 in ground arith), rest)
      ]

  row_allowed :
      (revoked : List AuthPoolBinding) (b : Row)
      → is_some (pool_row pool db.pools) ≡ true
      → Stays revoked b
      → text_eq b.pool_id pool ≡ true
      → is_row_allowed (after db pool v ids revoked) b ≡ true
  unfolding replaced owner
  row_allowed revoked b row stays same =
      rw ((text_eq_iff b.pool_id pool).0 same)
        (may_hold-kept db pool v ids revoked (owner db b.api_key_hash) row (stays same))

  row_allowed-invariant :
      (revoked : List AuthPoolBinding) (b : Row)
      → Stays revoked b
      → is_row_allowed db b ≡ true
      → is_row_allowed (after db pool v ids revoked) b ≡ true
  unfolding replaced owner
  row_allowed-invariant revoked b stays before = elim (Bool-cases (text_eq b.pool_id pool)) [
    | inr other ↦
        is_row_allowed-other db pool v ids revoked b (text_eq_comm pool b.pool_id ∙ other) ∙ before
    | inl same ↦ elim (Option-cases (pool_row pool db.pools)) [
      | inr (p, row) ↦ row_allowed revoked b (rw row refl) stays same
      | inl row ↦ rw ((text_eq_iff b.pool_id pool).0 same) (
          may_hold-no_row db pool v ids revoked (owner db b.api_key_hash) row
          ∙ ap (λ q. may_hold db q (owner db b.api_key_hash))
              (sym ((text_eq_iff b.pool_id pool).0 same))
          ∙ before)
    ]
  ]

  kept_invariant :
      (x : Exempt) (revoked : List AuthPoolBinding) (b : Row) (rest : List Row) (t : Bool)
      → All (Stays revoked) (if t then rest else b ∷ rest)
      → (is_exempt x b ≡ false → is_row_allowed db b ≡ true)
      → (All (Stays revoked) rest
          → All
              (λ c. is_exempt x c ≡ false → is_row_allowed (after db pool v ids revoked) c ≡ true)
              rest)
      → All
          (λ c. is_exempt x c ≡ false → is_row_allowed (after db pool v ids revoked) c ≡ true)
          (if t then rest else b ∷ rest)
  kept_invariant x revoked b rest true stays allowed next = next stays
  kept_invariant x revoked b rest false stays allowed next =
      ((λ n. row_allowed-invariant revoked b stays.0 (allowed n)), next stays.1)

  without_revoked-invariant :
      (x : Exempt) (revoked : List AuthPoolBinding) (bs : List Row)
      → All (Stays revoked) (without_revoked pool revoked bs)
      → All (λ b. is_exempt x b ≡ false → is_row_allowed db b ≡ true) bs
      → All
          (λ b. is_exempt x b ≡ false → is_row_allowed (after db pool v ids revoked) b ≡ true)
          (without_revoked pool revoked bs)
  without_revoked-invariant x revoked [] stays all = tt
  without_revoked-invariant x revoked (b ∷ bs) stays all =
      kept_invariant x revoked b (without_revoked pool revoked bs)
        (text_eq b.pool_id pool && has_hash b.api_key_hash revoked) stays all.0
        (λ kept. without_revoked-invariant x revoked bs kept all.1)

  pool_row_allowed :
      (revoked : List AuthPoolBinding) (b : Row)
      → is_some (pool_row pool db.pools) ≡ true
      → Stays revoked b
      → (not (text_eq b.pool_id pool) || is_row_allowed (after db pool v ids revoked) b) ≡ true
  pool_row_allowed revoked b row stays = elim (Bool-cases (text_eq b.pool_id pool)) [
    | inl e ↦ rw (e, row_allowed revoked b row stays e) refl
    | inr e ↦ rw e refl
  ]

  abbrev revoked_now : List AuthPoolBinding
  revoked_now = auth_pool_bindings_revoked_by_visibility db pool v ids

  revoked_now-Covered : text_eq v all_users ≡ false → Covered revoked_now db.bindings
  unfolding auth_pool_bindings_revoked_by_visibility
  revoked_now-Covered other = rw other (revoked_rows-Covered db.bindings)

  kept_now : All (Stays revoked_now) (without_revoked pool revoked_now db.bindings)
  kept_now = without_revoked-Stays revoked_now db.bindings revoked_now-Covered

  pub replaced-PoolAllowed :
      is_some (pool_row pool db.pools) ≡ true
      → PoolAllowed pool (replaced db pool v ids revoked_now)
  unfolding replaced
  replaced-PoolAllowed row =
      All-map (Stays revoked_now) _ (without_revoked pool revoked_now db.bindings)
        (λ b stays. pool_row_allowed revoked_now b row stays) kept_now

  pub replaced-AllAllowed :
      (x : Exempt) → AllAllowed x db → AllAllowed x (replaced db pool v ids revoked_now)
  unfolding replaced
  replaced-AllAllowed x before = without_revoked-invariant x revoked_now db.bindings kept_now before
