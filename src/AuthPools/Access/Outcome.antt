-- ===== src/AuthPools/Access/Outcome.antt =====
-- backend/internal/app/auth_pools.go: how `replaceAuthPoolAccess` ends.
use cpa_helper_s.Prelude.{ℕ, ◌≡◌, refl, ◌⊎◌, inl, inr, true, not, ◌&&◌, ◌||◌, List, Bool-cases}
use cpa_helper_s.Prelude.Int.{ℤ}
use cpa_helper_s.Prelude.Text.{Text, is_empty, trim_space}
use cpa_helper_s.Errors.{Result, ok, err, AppError}
use cpa_helper_s.AuthPools.{is_nonempty, normalize_auth_pool_visibility}
use cpa_helper_s.AuthPools.Database.{Database, Plugin, pool_row, is_some}
use cpa_helper_s.AuthPools.Access.{
  World, write_access, users_to_allow, after_removal, replace_access_as, replace_auth_pool_access,
  auth_pool_bindings_revoked_by_visibility, are_users,
}
use cpa_helper_s.AuthPools.Access.Revoked.{PoolAllowed, replaced-PoolAllowed}

module _ (lower : ℕ → ℕ) (plugin : Plugin) where
  open plugin use {State}

  -- Done, or the tables are as they were.
  abbrev pub AllOrNothing : Database → Text → World lower plugin × Result (Unit {0}) → Type 0
  AllOrNothing db pool out =
      ((out.1 ≡ ok tt) × PoolAllowed pool out.0.0)
      ⊎ ((out.0.0 ≡ db) × (e : AppError) × (out.1 ≡ err e))

  write_access-AllOrNothing :
      (db : Database) (pool v : Text) (users : List ℤ) (s : State)
      → is_some (pool_row pool db.pools) ≡ true
      → AllOrNothing db pool (
          write_access lower plugin db pool v users
            (auth_pool_bindings_revoked_by_visibility db pool v users)
            s)
  unfolding write_access
  write_access-AllOrNothing db pool v users s row =
      elim (Bool-cases
        (not (is_nonempty users) || is_some (pool_row pool db.pools) && are_users db.users users)) [
          | inl e ↦ rw e (inl (refl, replaced-PoolAllowed db pool v users row))
          | inr e ↦ rw e (inr (refl, _, refl))
        ]

  after_removal-AllOrNothing :
      (db : Database) (pool v : Text) (users : List ℤ) (out : State × Result (Unit {0}))
      → is_some (pool_row pool db.pools) ≡ true
      → AllOrNothing db pool (
          after_removal lower plugin db pool v users
            (auth_pool_bindings_revoked_by_visibility db pool v users)
            out)
  after_removal-AllOrNothing db pool v users (s, err e) row = inr (refl, e, refl)
  after_removal-AllOrNothing db pool v users (s, ok done) row =
      write_access-AllOrNothing db pool v users s row

  replace_access_as-AllOrNothing :
      (db : Database) (s : State) (pool : Text) (ids : List ℤ) (v : Result Text)
      → is_some (pool_row pool db.pools) ≡ true
      → AllOrNothing db pool (replace_access_as lower plugin db s pool ids v)
  replace_access_as-AllOrNothing db s pool ids (err e) row = inr (refl, e, refl)
  replace_access_as-AllOrNothing db s pool ids (ok v) row =
      after_removal-AllOrNothing db pool v (users_to_allow v ids) _ row

  -- Replacing who a pool is for either succeeds, and then every key that is bound to the pool belongs to
  -- an administrator or to a user who may now use it, or it is an error and the tables are as they
  -- were, whatever the plugin answers; the pool has its row.
  pub replace_auth_pool_access-AllOrNothing :
      (w : World lower plugin) (pool v : Text) (ids : List ℤ)
      → is_some (pool_row (trim_space pool) w.0.pools) ≡ true
      → AllOrNothing w.0 (trim_space pool) (replace_auth_pool_access lower plugin w pool v ids)
  unfolding replace_auth_pool_access
  replace_auth_pool_access-AllOrNothing (db, s) pool v ids row =
      elim (Bool-cases (is_empty (trim_space pool))) [
        | inl e ↦ rw e (inr (refl, _, refl))
        | inr e ↦ rw e (
            replace_access_as-AllOrNothing db s (trim_space pool) ids
              (normalize_auth_pool_visibility lower v ids) row)
      ]
