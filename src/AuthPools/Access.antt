-- ===== src/AuthPools/Access.antt =====
-- backend/internal/app/auth_pools.go: `replaceAuthPoolAccess` and what it calls. What cannot be
-- written leaves the tables as they were, since it is one transaction.
pub mod Replaced
pub mod Revoked
pub mod Outcome
use cpa_helper_s.Prelude.{
  ℕ, Bool, true, false, not, ◌&&◌, ◌||◌, Option, none, some, List, [], ◌∷◌, ◌++◌, if◌then◌else◌,
}
use cpa_helper_s.Prelude.Int.{ℤ}
use cpa_helper_s.Prelude.Text.{Text, text_eq, is_empty, trim_space}
use cpa_helper_s.Errors.{Result, ok, err, AppError, validation}
use cpa_helper_s.AuthPools.{
  AuthPool, all_users, selected_users, admins_only, auth_pool_user_id_allowed, is_nonempty,
  normalize_auth_pool_user_ids, normalize_auth_pool_visibility,
}
use cpa_helper_s.AuthPools.Database.{
  Database, Plugin, Key, User, Row, Entitlement, AuthPoolBinding, owner, user_row, pool_row,
  is_some,
}

-- Whether `authPoolBindingsRevokedByVisibility` selects a binding of this owner.
abbrev pub is_revoked_owner : Text → List ℤ → Option (Key × User) → Bool
is_revoked_owner visibility allowed none = false
is_revoked_owner visibility allowed (some (k, u)) =
    not u.is_admin
    && not (
        text_eq visibility selected_users
        && is_nonempty allowed
        && auth_pool_user_id_allowed allowed k.user_id)

abbrev pub joined : Row → Option (Key × User) → List AuthPoolBinding → List AuthPoolBinding
joined b none rest = rest
joined b (some (k, u)) rest =
    record {
      api_key_hash = b.api_key_hash;
      api_key_description = k.description;
      pool_id = b.pool_id;
      user_id = k.user_id;
      username = u.username;
    }
    ∷ rest

unfoldable pub revoked_rows : Database → Text → Text → List ℤ → List Row → List AuthPoolBinding
unfolding owner
revoked_rows db pool visibility allowed [] = []
revoked_rows db pool visibility allowed (b ∷ bs) =
    let rest = revoked_rows db pool visibility allowed bs in
    if text_eq b.pool_id pool && is_revoked_owner visibility allowed (owner db b.api_key_hash)
    then joined b (owner db b.api_key_hash) rest
    else rest

unfoldable pub auth_pool_bindings_revoked_by_visibility :
    Database → Text → Text → List ℤ → List AuthPoolBinding
unfolding revoked_rows
auth_pool_bindings_revoked_by_visibility db pool visibility allowed =
    if text_eq visibility all_users then [] else revoked_rows db pool visibility allowed db.bindings

module _ (plugin : Plugin) where
  open plugin use {State, put_binding, delete_binding}

  unfoldable pub restore_auth_pool_bindings_in_plugin : List AuthPoolBinding → State → State
  restore_auth_pool_bindings_in_plugin [] s = s
  restore_auth_pool_bindings_in_plugin (b ∷ bs) s =
      restore_auth_pool_bindings_in_plugin bs (put_binding s b).0

  abbrev pub removal_failed : List AuthPoolBinding → AppError → State → State × Result (Unit {0})
  removal_failed removed e s = (restore_auth_pool_bindings_in_plugin removed s, err e)

  unfoldable pub remove_bindings :
      List AuthPoolBinding → List AuthPoolBinding → State → State × Result (Unit {0})
  unfolding restore_auth_pool_bindings_in_plugin
  remove_bindings removed [] s = (s, ok tt)
  remove_bindings removed (b ∷ bs) s =
      let answer = delete_binding s b.api_key_hash in
      let rest = remove_bindings (removed ++ b ∷ []) bs answer.0 in
      elim answer.1 [ ok done ↦ rest | err e ↦ removal_failed removed e answer.0 ]

  unfoldable pub remove_auth_pool_bindings_from_plugin :
      List AuthPoolBinding → State → State × Result (Unit {0})
  unfolding remove_bindings
  remove_auth_pool_bindings_from_plugin bs s = remove_bindings [] bs s

-- The transaction. A row of `auth_pool_entitlements` wants its pool and its user.
abbrev pub without_pool : Text → List Entitlement → List Entitlement
without_pool pool [] = []
without_pool pool (e ∷ es) =
    if text_eq e.pool_id pool then without_pool pool es else e ∷ without_pool pool es

abbrev pub with_visibility : Text → Text → List AuthPool → List AuthPool
with_visibility pool visibility [] = []
with_visibility pool visibility (p ∷ ps) =
    (if text_eq p.id pool then record p { visibility = visibility } else p)
    ∷ with_visibility pool visibility ps

abbrev pub entitlements_of : Text → List ℤ → List Entitlement
entitlements_of pool [] = []
entitlements_of pool (u ∷ us) = record { pool_id = pool; user_id = u } ∷ entitlements_of pool us

abbrev pub are_users : List User → List ℤ → Bool
are_users users [] = true
are_users users (u ∷ us) = is_some (user_row u users) && are_users users us

abbrev pub has_hash : Text → List AuthPoolBinding → Bool
has_hash hash [] = false
has_hash hash (b ∷ bs) = text_eq b.api_key_hash hash || has_hash hash bs

abbrev pub without_revoked : Text → List AuthPoolBinding → List Row → List Row
without_revoked pool revoked [] = []
without_revoked pool revoked (b ∷ bs) =
    let rest = without_revoked pool revoked bs in
    if text_eq b.pool_id pool && has_hash b.api_key_hash revoked then rest else b ∷ rest

unfoldable pub replaced : Database → Text → Text → List ℤ → List AuthPoolBinding → Database
replaced db pool visibility users revoked = record db {
  pools = with_visibility pool visibility db.pools;
  entitlements = without_pool pool db.entitlements ++ entitlements_of pool users;
  bindings = without_revoked pool revoked db.bindings;
}

abbrev pub users_to_allow : Text → List ℤ → List ℤ
users_to_allow visibility ids =
    if text_eq visibility selected_users then normalize_auth_pool_user_ids ids else []

module _ (lower : ℕ → ℕ) (plugin : Plugin) where
  open plugin use {State}

  abbrev pub World : Type 0
  World = Database × State

  unfoldable pub write_access :
      Database → Text → Text → List ℤ → List AuthPoolBinding → State → World × Result (Unit {0})
  unfolding replaced pool_row user_row restore_auth_pool_bindings_in_plugin
  write_access db pool visibility users revoked s =
      if not (is_nonempty users) || is_some (pool_row pool db.pools) && are_users db.users users
      then ((replaced db pool visibility users revoked, s), ok tt)
      else ((db, restore_auth_pool_bindings_in_plugin plugin revoked s), err validation)

  abbrev pub after_removal :
      Database
      → Text
      → Text
      → List ℤ
      → List AuthPoolBinding
      → State × Result (Unit {0})
      → World × Result (Unit {0})
  after_removal db pool visibility users revoked (s, err e) = ((db, s), err e)
  after_removal db pool visibility users revoked (s, ok done) =
      write_access db pool visibility users revoked s

  abbrev pub replace_access_as :
      Database → State → Text → List ℤ → Result Text → World × Result (Unit {0})
  replace_access_as db s pool ids (err e) = ((db, s), err e)
  replace_access_as db s pool ids (ok visibility) =
      let users = users_to_allow visibility ids in
      let revoked = auth_pool_bindings_revoked_by_visibility db pool visibility users in
      after_removal db pool visibility users revoked
        (remove_auth_pool_bindings_from_plugin plugin revoked s)

  unfoldable pub replace_auth_pool_access : World → Text → Text → List ℤ → World × Result (Unit {0})
  unfolding write_access auth_pool_bindings_revoked_by_visibility
      remove_auth_pool_bindings_from_plugin normalize_auth_pool_visibility
      normalize_auth_pool_user_ids
  replace_auth_pool_access (db, s) pool visibility ids =
      if is_empty (trim_space pool)
      then ((db, s), err validation)
      else replace_access_as db s (trim_space pool) ids
          (normalize_auth_pool_visibility lower visibility ids)

  unfoldable pub replace_auth_pool_entitlements : World → Text → List ℤ → World × Result (Unit {0})
  unfolding replace_auth_pool_access normalize_auth_pool_user_ids
  replace_auth_pool_entitlements w pool ids =
      replace_auth_pool_access w pool
        (if is_nonempty (normalize_auth_pool_user_ids ids) then selected_users else admins_only) ids
