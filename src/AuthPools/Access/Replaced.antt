-- ===== src/AuthPools/Access/Replaced.antt =====
-- backend/internal/app/auth_pools.go: the tables after `replaceAuthPoolAccess`.
use cpa_helper_s.Prelude.{
  ◌≡◌, refl, ap, ◌∙◌, Bool, true, false, not, ◌&&◌, ◌||◌, Option, none, some, List, [], ◌∷◌, ◌++◌,
  if◌then◌else◌, arith, inl, inr, Bool-cases, All,
}
use cpa_helper_s.Prelude.Int.{ℤ}
use cpa_helper_s.Prelude.Text.{Text, text_eq, text_eq_refl, text_eq_left, text_eq_right}
use cpa_helper_s.AuthPools.{AuthPool, all_users, selected_users, auth_pool_user_id_allowed}
use cpa_helper_s.AuthPools.Database.{
  Database, Key, User, Row, Entitlement, AuthPoolBinding, owner, pool_row, entitled, is_some,
}
use cpa_helper_s.AuthPools.Access.{
  is_revoked_owner, without_pool, with_visibility, entitlements_of, replaced,
}

-- Whether a user who is no administrator may use a pool.
abbrev pub may_use_row : Option AuthPool → Bool → Bool
may_use_row none listed = false
may_use_row (some p) listed =
    text_eq p.visibility all_users || text_eq p.visibility selected_users && listed

abbrev pub may_use : Database → Text → ℤ → Bool
may_use db pool user = may_use_row (pool_row pool db.pools) (entitled pool user db.entitlements)

abbrev pub may_hold : Database → Text → Option (Key × User) → Bool
may_hold db pool none = true
may_hold db pool (some (k, u)) = u.is_admin || may_use db pool k.user_id

-- The key of a row has no owner, or one who may use the row's pool.
abbrev pub is_row_allowed : Database → Row → Bool
is_row_allowed db b = may_hold db b.pool_id (owner db b.api_key_hash)

-- Keys and pools that an invariant leaves out.
pub record Exempt : Type 0 where
  pub keys : Text → Bool
  pub pools : Text → Bool

abbrev pub is_exempt : Exempt → Row → Bool
is_exempt x b = x.keys b.api_key_hash || x.pools b.pool_id

abbrev pub AllAllowed : Exempt → Database → Type 0
AllAllowed x db = All (λ b. is_exempt x b ≡ false → is_row_allowed db b ≡ true) db.bindings

may_hold_cong :
    (after before : Database) (pool : Text) (o : Option (Key × User))
    → ((user : ℤ) → may_use after pool user ≡ may_use before pool user)
    → may_hold after pool o ≡ may_hold before pool o
may_hold_cong after before pool none same = refl
may_hold_cong after before pool (some (k, u)) same = ap (λ b. u.is_admin || b) (same k.user_id)

entitled-append :
    (pool : Text) (user : ℤ) (es fs : List Entitlement)
    → entitled pool user (es ++ fs) ≡ (entitled pool user es || entitled pool user fs)
unfolding entitled
entitled-append pool user [] fs = refl
entitled-append pool user (e ∷ es) fs = ground (arith, entitled-append pool user es fs)

entitled-without_pool :
    (pool q : Text) (user : ℤ) (es : List Entitlement)
    → entitled q user (without_pool pool es) ≡ (not (text_eq pool q) && entitled q user es)
unfolding entitled
entitled-without_pool pool q user [] = ground arith
entitled-without_pool pool q user (e ∷ es) = elim (Bool-cases (text_eq e.pool_id pool)) [
  | inl h ↦
      rw (h) (ground (arith, entitled-without_pool pool q user es, text_eq_left e.pool_id pool q))
  | inr h ↦
      rw (h) (ground (arith, entitled-without_pool pool q user es, text_eq_right e.pool_id pool q))
]

entitled-entitlements_of :
    (pool q : Text) (user : ℤ) (ids : List ℤ)
    → entitled q user (entitlements_of pool ids)
      ≡ (text_eq pool q && auth_pool_user_id_allowed ids user)
unfolding entitled auth_pool_user_id_allowed
entitled-entitlements_of pool q user [] = ground arith
entitled-entitlements_of pool q user (a ∷ ids) =
    ground (arith, entitled-entitlements_of pool q user ids)

abbrev grants : Text → Bool → Bool
grants v listed = text_eq v all_users || text_eq v selected_users && listed

may_use_row-with_visibility :
    (pool v : Text) (ps : List AuthPool) (listed : Bool)
    → may_use_row (pool_row pool (with_visibility pool v ps)) listed
      ≡ (is_some (pool_row pool ps) && grants v listed)
unfolding pool_row
may_use_row-with_visibility pool v [] listed = refl
may_use_row-with_visibility pool v (q ∷ ps) listed = elim (Bool-cases (text_eq q.id pool)) [
  | inl e ↦ rw (e, e) refl
  | inr e ↦ rw (e, e) (may_use_row-with_visibility pool v ps listed)
]

pool_row-with_visibility :
    (pool r v : Text) (ps : List AuthPool)
    → text_eq pool r ≡ false
    → pool_row r (with_visibility pool v ps) ≡ pool_row r ps
unfolding pool_row
pool_row-with_visibility pool r v [] h = refl
pool_row-with_visibility pool r v (q ∷ ps) h = elim (Bool-cases (text_eq q.id pool)) [
  | inl e ↦
      let n = text_eq_left q.id pool r e ∙ h in rw (e, n) (pool_row-with_visibility pool r v ps h)
  | inr e ↦
      rw (e)
        (ap (λ o. if text_eq q.id r then some q else o) (pool_row-with_visibility pool r v ps h))
]

module _ (db : Database) (pool v : Text) (ids : List ℤ) where
  abbrev pub after : List AuthPoolBinding → Database
  after revoked = replaced db pool v ids revoked

  -- Another pool is for the same users as before.
  may_use-other :
      (revoked : List AuthPoolBinding) (q : Text) (user : ℤ)
      → text_eq pool q ≡ false
      → may_use (after revoked) q user ≡ may_use db q user
  unfolding replaced
  may_use-other revoked q user other =
      rw
        (
          pool_row-with_visibility pool q v db.pools other,
          entitled-append q user (without_pool pool db.entitlements) (entitlements_of pool ids),
          entitled-without_pool pool q user db.entitlements,
          entitled-entitlements_of pool q user ids,
          other,
        )
        (ap (may_use_row (pool_row q db.pools)) (ground arith))

  pub is_row_allowed-other :
      (revoked : List AuthPoolBinding) (b : Row)
      → text_eq pool b.pool_id ≡ false
      → is_row_allowed (after revoked) b ≡ is_row_allowed db b
  unfolding replaced owner
  is_row_allowed-other revoked b other =
      may_hold_cong (after revoked) db b.pool_id (owner db b.api_key_hash)
        (λ user. may_use-other revoked b.pool_id user other)

  may_use-replaced :
      (revoked : List AuthPoolBinding) (user : ℤ)
      → may_use (after revoked) pool user
        ≡ (is_some (pool_row pool db.pools) && grants v (auth_pool_user_id_allowed ids user))
  unfolding replaced
  may_use-replaced revoked user =
      may_use_row-with_visibility pool v db.pools _
      ∙ rw
          (
            entitled-append pool user (without_pool pool db.entitlements)
                (entitlements_of pool ids),
            entitled-without_pool pool pool user db.entitlements,
            entitled-entitlements_of pool pool user ids,
            text_eq_refl pool,
          )
          refl

  -- An owner whose binding is not revoked may use the pool, once it has its row.
  pub may_hold-kept :
      (revoked : List AuthPoolBinding) (o : Option (Key × User))
      → is_some (pool_row pool db.pools) ≡ true
      → (text_eq v all_users ≡ false → is_revoked_owner v ids o ≡ false)
      → may_hold (after revoked) pool o ≡ true
  may_hold-kept revoked none row kept = refl
  may_hold-kept revoked (some (k, u)) row kept =
      rw (may_use-replaced revoked k.user_id, row) (ground arith)

  -- Without a row of the pool, nobody may use it before or after.
  pub may_hold-no_row :
      (revoked : List AuthPoolBinding) (o : Option (Key × User))
      → pool_row pool db.pools ≡ none
      → may_hold (after revoked) pool o ≡ may_hold db pool o
  may_hold-no_row revoked o row =
      may_hold_cong (after revoked) db pool o (λ user. may_use-replaced revoked user ∙ rw row refl)
