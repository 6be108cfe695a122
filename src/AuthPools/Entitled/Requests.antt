-- ===== src/AuthPools/Entitled/Requests.antt =====
-- backend/internal/app/auth_pools.go: `replaceAuthPoolAccess`, `bindAPIKeyToAuthPool` and
-- `unbindAPIKeyFromAuthPool`, each by its parts.
use cpa_helper_s.Prelude.{
  ℕ, ◌≡◌, refl, Bool, true, false, not, ◌&&◌, ◌||◌, some, List, if◌then◌else◌, inl, inr, Bool-cases,
  All, arith,
}
use cpa_helper_s.Prelude.Int.{ℤ}
use cpa_helper_s.Prelude.Text.{Text, is_empty, trim_space}
use cpa_helper_s.Errors.{Result, ok, err, require, not_found}
use cpa_helper_s.AuthPools.{AuthPool, AuthUser, normalize_auth_pool_visibility, is_nonempty}
use cpa_helper_s.AuthPools.Database.{
  Database, Plugin, AuthPoolBinding, key_row, owner, save_local_auth_pools, pool_row, is_some,
}
use cpa_helper_s.AuthPools.Access.{
  World, write_access, users_to_allow, after_removal, replace_access_as, replace_auth_pool_access,
  auth_pool_bindings_revoked_by_visibility, are_users,
}
use cpa_helper_s.AuthPools.Access.Replaced.{Exempt, AllAllowed}
use cpa_helper_s.AuthPools.Access.Revoked.{replaced-AllAllowed}
use cpa_helper_s.AuthPools.Bindings.{
  is_key_of, local_auth_pool_availability, check_pool, saved_then_checked, after_status,
  ensure_auth_pool_binding_access, after_put, after_access, bind_if, bind_api_key_to_auth_pool,
  unbind_if, unbind_api_key_from_auth_pool, after_delete, with_row,
}
use cpa_helper_s.AuthPools.Entitled.{
  AllAllowed-without_row, AllAllowed-with_row, AllAllowed-Grows, check_pool-may_use, may_hold-bound,
  has_right,
}
use cpa_helper_s.AuthPools.Entitled.Saving.{
  KeepsNames, OmitsOrExempt, Grows, save_local_auth_pools-Grows,
}

left-false : (a b : Bool) → (a || b) ≡ false → a ≡ false
left-false a b h = ground arith

module _ (lower : ℕ → ℕ) (plugin : Plugin) (x : Exempt) where
  open plugin use {State, status, put_binding, delete_binding}

  -- Every pool that the plugin lists in this state has no visibility there, or is left out.
  abbrev pub ListsOnly : State → Type 0
  ListsOnly s =
      (listed : List AuthPool) → (status s).1 ≡ ok listed → All (OmitsOrExempt lower x.pools) listed

  -- What `replaceAuthPoolAccess` writes.
  write_access-AllAllowed :
      (db : Database) (pool v : Text) (users : List ℤ) (s : State)
      → AllAllowed x db
      → AllAllowed x
          (write_access lower plugin db pool v users
            (auth_pool_bindings_revoked_by_visibility db pool v users)
            s).0.0
  unfolding write_access
  write_access-AllAllowed db pool v users s all =
      elim (Bool-cases
        (not (is_nonempty users) || is_some (pool_row pool db.pools) && are_users db.users users)) [
          | inl e ↦ rw e (replaced-AllAllowed db pool v users x all)
          | inr e ↦ rw e all
        ]

  after_removal-AllAllowed :
      (db : Database) (pool v : Text) (users : List ℤ) (out : State × Result (Unit {0}))
      → AllAllowed x db
      → AllAllowed x
          (after_removal lower plugin db pool v users
            (auth_pool_bindings_revoked_by_visibility db pool v users)
            out).0.0
  after_removal-AllAllowed db pool v users (s, err e) all = all
  after_removal-AllAllowed db pool v users (s, ok done) all =
      write_access-AllAllowed db pool v users s all

  replace_access_as-AllAllowed :
      (db : Database) (s : State) (pool : Text) (ids : List ℤ) (v : Result Text)
      → AllAllowed x db
      → AllAllowed x (replace_access_as lower plugin db s pool ids v).0.0
  replace_access_as-AllAllowed db s pool ids (err e) all = all
  replace_access_as-AllAllowed db s pool ids (ok v) all =
      after_removal-AllAllowed db pool v (users_to_allow v ids) _ all

  pub replace_auth_pool_access-AllAllowed :
      (w : World lower plugin) (pool v : Text) (ids : List ℤ)
      → AllAllowed x w.0
      → AllAllowed x (replace_auth_pool_access lower plugin w pool v ids).0.0
  unfolding replace_auth_pool_access
  replace_auth_pool_access-AllAllowed (db, s) pool v ids all =
      elim (Bool-cases (is_empty (trim_space pool))) [
        | inl e ↦ rw e all
        | inr e ↦ rw e (
            replace_access_as-AllAllowed db s (trim_space pool) ids
              (normalize_auth_pool_visibility lower v ids) all)
      ]

  -- What the check of a pool leaves.
  abbrev Checked : Database → AuthUser → Text → World lower plugin × Result (Unit {0}) → Type 0
  Checked db user pool out =
      (AllAllowed x db → AllAllowed x out.0.0)
      × (out.0.0.keys ≡ db.keys)
      × (out.0.0.users ≡ db.users)
      × (out.1 ≡ ok tt
          → check_pool out.0.0 (some user) pool (local_auth_pool_availability out.0.0 pool) ≡ ok tt)

  saved-Checked :
      (db : Database) (s : State) (user : AuthUser) (pool : Text)
      (out : List AuthPool × Result (Unit {0}))
      → Grows x.pools db.pools out.0
      → Checked db user pool (saved_then_checked lower plugin db s (some user) pool out)
  saved-Checked db s user pool (pools, err e) grows =
      (AllAllowed-Grows x db pools grows, refl, refl, (λ h. cc))
  saved-Checked db s user pool (pools, ok done) grows =
      (AllAllowed-Grows x db pools grows, refl, refl, (λ h. h))

  status-Checked :
      KeepsNames lower
      → (db : Database) (user : AuthUser) (pool : Text) (out : State × Result (List AuthPool))
      → ((listed : List AuthPool) → out.1 ≡ ok listed → All (OmitsOrExempt lower x.pools) listed)
      → Checked db user pool (after_status lower plugin db (some user) pool out)
  status-Checked keeps db user pool (s, err e) omits = ((λ all. all), refl, refl, (λ h. cc))
  status-Checked keeps db user pool (s, ok listed) omits =
      saved-Checked db s user pool (save_local_auth_pools lower listed db.pools)
        (save_local_auth_pools-Grows lower keeps x.pools listed db.pools (omits listed refl))

  if-Checked :
      (db : Database) (user : AuthUser) (pool : Text) (t : Bool)
      (x y : World lower plugin × Result (Unit {0}))
      → Checked db user pool x
      → Checked db user pool y
      → Checked db user pool (if t then x else y)
  if-Checked db user pool true x y p q = p
  if-Checked db user pool false x y p q = q

  access-Checked :
      KeepsNames lower
      → (w : World lower plugin) (user : AuthUser) (pool : Text) → ListsOnly w.1
      → Checked w.0 user pool (ensure_auth_pool_binding_access lower plugin w (some user) pool)
  unfolding ensure_auth_pool_binding_access
  access-Checked keeps (db, s) user pool omits =
      let available = local_auth_pool_availability db pool in
      if-Checked db user pool available.0 ((db, s), check_pool db (some user) pool available) _
        ((λ all. all), refl, refl, (λ h. h)) (status-Checked keeps db user pool (status s) omits)

  -- The row that `bindAPIKeyToAuthPool` writes.
  after_put-AllAllowed :
      (db : Database) (hash pool : Text) (out : State × Result AuthPoolBinding)
      → AllAllowed x db
      → AllAllowed x (with_row (record { api_key_hash = hash; pool_id = pool }) db)
      → AllAllowed x (after_put lower plugin db hash pool out).0.0
  after_put-AllAllowed db hash pool (s, err e) all bound = all
  after_put-AllAllowed db hash pool (s, ok b) all bound = bound

  after_access-AllAllowed :
      (db : Database) (user : AuthUser) (hash pool : Text)
      (out : World lower plugin × Result (Unit {0}))
      → Checked db user pool out
      → is_key_of (some user) (key_row hash db.keys) ≡ true
      → (x.keys hash ≡ false → has_right db user hash ≡ true)
      → AllAllowed x db
      → AllAllowed x (after_access lower plugin user hash pool out).0.0
  unfolding owner
  after_access-AllAllowed db user hash pool (w, err e) checked own right all = checked.0 all
  after_access-AllAllowed db user hash pool ((now, s), ok done) checked own right all =
      after_put-AllAllowed now hash pool _ (checked.0 all) (
        AllAllowed-with_row x now _ (checked.0 all) (λ n.
          may_hold-bound now pool user (key_row hash now.keys) (rw checked.1 own)
            (rw (checked.1, checked.2) (right (left-false (x.keys hash) (x.pools pool) n)))
            (λ plain. check_pool-may_use now user pool plain (checked.3 refl))))

  bind_if-AllAllowed :
      KeepsNames lower
      → (w : World lower plugin) (user : AuthUser) (hash pool : Text) (t : Bool) → ListsOnly w.1
      → (t ≡ true → is_key_of (some user) (key_row hash w.0.keys) ≡ true)
      → (x.keys hash ≡ false → has_right w.0 user hash ≡ true)
      → AllAllowed x w.0
      → AllAllowed x (bind_if lower plugin w user hash pool (require t not_found)).0.0
  bind_if-AllAllowed keeps w user hash pool false omits own right all = all
  bind_if-AllAllowed keeps w user hash pool true omits own right all =
      after_access-AllAllowed w.0 user hash pool _ (access-Checked keeps w user pool omits)
        (own refl) right all

  pub bind_api_key_to_auth_pool-AllAllowed :
      KeepsNames lower
      → (w : World lower plugin) (user : AuthUser) (key pool : Text) → ListsOnly w.1
      → (x.keys (trim_space key) ≡ false → has_right w.0 user (trim_space key) ≡ true)
      → AllAllowed x w.0
      → AllAllowed x (bind_api_key_to_auth_pool lower plugin w user key pool).0.0
  unfolding bind_api_key_to_auth_pool
  bind_api_key_to_auth_pool-AllAllowed keeps w user key pool omits right all =
      elim (Bool-cases (is_empty (trim_space key) || is_empty (trim_space pool))) [
        | inl e ↦ rw e all
        | inr e ↦ rw e (
            bind_if-AllAllowed keeps w user (trim_space key) (trim_space pool) _ omits (λ h. h)
              right all)
      ]

  after_delete-AllAllowed :
      (db : Database) (hash : Text) (out : State × Result (Unit {0}))
      → AllAllowed x db
      → AllAllowed x (after_delete lower plugin db hash out).0.0
  after_delete-AllAllowed db hash (s, err e) all = all
  after_delete-AllAllowed db hash (s, ok done) all = AllAllowed-without_row x db hash all

  unbind_if-AllAllowed :
      (w : World lower plugin) (hash : Text) (r : Result (Unit {0}))
      → AllAllowed x w.0
      → AllAllowed x (unbind_if lower plugin w hash r).0.0
  unbind_if-AllAllowed w hash (err e) all = all
  unbind_if-AllAllowed w hash (ok done) all = after_delete-AllAllowed w.0 hash _ all

  pub unbind_api_key_from_auth_pool-AllAllowed :
      (w : World lower plugin) (user : AuthUser) (key : Text)
      → AllAllowed x w.0
      → AllAllowed x (unbind_api_key_from_auth_pool lower plugin w user key).0.0
  unfolding unbind_api_key_from_auth_pool
  unbind_api_key_from_auth_pool-AllAllowed w user key all =
      elim (Bool-cases (is_empty (trim_space key))) [
        | inl e ↦ rw e all
        | inr e ↦ rw e (unbind_if-AllAllowed w (trim_space key) _ all)
      ]
