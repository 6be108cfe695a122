-- ===== src/AuthPools/Bindings.antt =====
-- backend/internal/app/auth_pools.go: `bindAPIKeyToAuthPool`, `unbindAPIKeyFromAuthPool` and their
-- checks, and what a request asks of the pool that its key is bound to. The hash of a key and the ID
-- of a pool are primary keys of their tables.
use cpa_helper_s.Prelude.{
  ℕ, Bool, true, false, not, ◌&&◌, ◌||◌, Option, none, some, List, [], ◌∷◌, if◌then◌else◌,
}
use cpa_helper_s.Prelude.Text.{Text, text_eq, is_empty, trim_space}
use cpa_helper_s.Errors.{Result, ok, err, ◌>>◌, require, validation, forbidden, not_found}
use cpa_helper_s.AuthPools.{
  AuthPool, AuthUser, same_int, all_users, selected_users, admins_only, auth_pool_allows_model,
}
use cpa_helper_s.AuthPools.Database.{
  Database, Plugin, Key, Row, AuthPoolBinding, pool_row, key_row, binding_row, entitled, put_row,
  save_local_auth_pools, is_some,
}
use cpa_helper_s.AuthPools.Access.{World}

abbrev pub is_key_of : Option AuthUser → Option Key → Bool
is_key_of user none = false
is_key_of none (some k) = true
is_key_of (some user) (some k) = user.is_admin || same_int k.user_id user.id

unfoldable pub ensure_api_key_pool_access : Database → Option AuthUser → Text → Result (Unit {0})
unfolding key_row
ensure_api_key_pool_access db user hash = require (is_key_of user (key_row hash db.keys)) not_found

-- Whether the pool exists and is enabled, and its visibility.
abbrev pub availability_of : Option AuthPool → Bool × Bool × Text
availability_of none = (false, false, admins_only)
availability_of (some p) =
    (true, p.enabled, (if is_empty p.visibility then admins_only else p.visibility))

unfoldable pub local_auth_pool_availability : Database → Text → Bool × Bool × Text
unfolding pool_row
local_auth_pool_availability db pool = availability_of (pool_row pool db.pools)

abbrev pub check_user : Database → Text → Text → Option AuthUser → Result (Unit {0})
check_user db pool visibility none = err forbidden
check_user db pool visibility (some user) =
    if user.is_admin
    then ok tt
    else if text_eq visibility all_users
    then ok tt
    else if not (text_eq visibility selected_users)
    then err forbidden
    else require (entitled pool user.id db.entitlements) forbidden

abbrev pub check_pool : Database → Option AuthUser → Text → Bool × Bool × Text → Result (Unit {0})
check_pool db user pool (exists, enabled, visibility) =
    require exists not_found >> require enabled validation >> check_user db pool visibility user

abbrev pub without_row : Text → List Row → List Row
without_row hash [] = []
without_row hash (b ∷ bs) =
    let rest = without_row hash bs in if text_eq b.api_key_hash hash then rest else b ∷ rest

abbrev pub description_of : Option Key → Text
description_of none = []
description_of (some k) = k.description

abbrev pub binding_for : AuthUser → Text → Text → Option Key → AuthPoolBinding
binding_for user hash pool key = record {
  api_key_hash = hash;
  api_key_description = trim_space (description_of key);
  pool_id = pool;
  user_id = user.id;
  username = user.username;
}

abbrev pub with_row : Row → Database → Database
with_row b db = record db { bindings = put_row b db.bindings }

module _ (lower : ℕ → ℕ) (plugin : Plugin) where
  open plugin use {State, put_binding, delete_binding, status}

  abbrev pub saved_then_checked :
      Database
      → State
      → Option AuthUser
      → Text
      → List AuthPool × Result (Unit {0})
      → World lower plugin × Result (Unit {0})
  saved_then_checked db s user pool (pools, err e) = ((record db { pools = pools }, s), err e)
  saved_then_checked db s user pool (pools, ok done) =
      let saved = record db { pools = pools } in
      ((saved, s), check_pool saved user pool (local_auth_pool_availability saved pool))

  abbrev pub after_status :
      Database
      → Option AuthUser
      → Text
      → State × Result (List AuthPool)
      → World lower plugin × Result (Unit {0})
  after_status db user pool (s, err e) = ((db, s), err e)
  after_status db user pool (s, ok listed) =
      saved_then_checked db s user pool (save_local_auth_pools lower listed db.pools)

  unfoldable pub ensure_auth_pool_binding_access :
      World lower plugin → Option AuthUser → Text → World lower plugin × Result (Unit {0})
  unfolding local_auth_pool_availability entitled
  ensure_auth_pool_binding_access (db, s) user pool =
      let available = local_auth_pool_availability db pool in
      if available.0
      then ((db, s), check_pool db user pool available)
      else after_status db user pool (status s)

  abbrev pub after_put :
      Database
      → Text
      → Text
      → State × Result AuthPoolBinding
      → World lower plugin × Result AuthPoolBinding
  after_put db hash pool (s, err e) = ((db, s), err e)
  after_put db hash pool (s, ok b) =
      ((with_row (record { api_key_hash = hash; pool_id = pool }) db, s), ok b)

  abbrev pub after_access :
      AuthUser
      → Text
      → Text
      → World lower plugin × Result (Unit {0})
      → World lower plugin × Result AuthPoolBinding
  after_access user hash pool (w, err e) = (w, err e)
  after_access user hash pool ((db, s), ok done) =
      after_put db hash pool (put_binding s (binding_for user hash pool (key_row hash db.keys)))

  abbrev pub bind_if :
      World lower plugin
      → AuthUser
      → Text
      → Text
      → Result (Unit {0})
      → World lower plugin × Result AuthPoolBinding
  bind_if w user hash pool (err e) = (w, err e)
  bind_if w user hash pool (ok done) =
      after_access user hash pool (ensure_auth_pool_binding_access w (some user) pool)

  unfoldable pub bind_api_key_to_auth_pool :
      World lower plugin → AuthUser → Text → Text → World lower plugin × Result AuthPoolBinding
  unfolding ensure_api_key_pool_access ensure_auth_pool_binding_access put_row key_row
  bind_api_key_to_auth_pool w user key pool_id =
      let hash = trim_space key in
      let pool = trim_space pool_id in
      if is_empty hash || is_empty pool
      then (w, err validation)
      else bind_if w user hash pool (ensure_api_key_pool_access w.0 (some user) hash)

  abbrev pub after_delete :
      Database → Text → State × Result (Unit {0}) → World lower plugin × Result (Unit {0})
  after_delete db hash (s, err e) = ((db, s), err e)
  after_delete db hash (s, ok done) =
      ((record db { bindings = without_row hash db.bindings }, s), ok tt)

  abbrev pub unbind_if :
      World lower plugin → Text → Result (Unit {0}) → World lower plugin × Result (Unit {0})
  unbind_if w hash (err e) = (w, err e)
  unbind_if w hash (ok done) = after_delete w.0 hash (delete_binding w.1 hash)

  unfoldable pub unbind_api_key_from_auth_pool :
      World lower plugin → AuthUser → Text → World lower plugin × Result (Unit {0})
  unfolding ensure_api_key_pool_access
  unbind_api_key_from_auth_pool w user key =
      let hash = trim_space key in
      if is_empty hash
      then (w, err validation)
      else unbind_if w hash (ensure_api_key_pool_access w.0 (some user) hash)

-- The pool that a key is bound to.
abbrev pub bound_pool : Option Row → Option Text
bound_pool none = none
bound_pool (some b) = if is_empty (trim_space b.pool_id) then none else some (trim_space b.pool_id)

unfoldable pub local_auth_pool_id_for_api_key : Database → Text → Option Text
unfolding binding_row
local_auth_pool_id_for_api_key db key =
    if is_empty (trim_space key)
    then none
    else bound_pool (binding_row (trim_space key) db.bindings)

unfoldable pub ensure_api_key_auth_pool_selected : Bool → Database → Text → Result (Unit {0})
unfolding local_auth_pool_id_for_api_key
ensure_api_key_auth_pool_selected proxy_mode db key =
    if not proxy_mode
    then ok tt
    else require (is_some (local_auth_pool_id_for_api_key db key)) validation

abbrev pub first_pool : Text → List AuthPool → Option AuthPool
first_pool id [] = none
first_pool id (p ∷ ps) = if text_eq (trim_space p.id) id then some p else first_pool id ps

abbrev pub pool_allows : (Text → Text → Bool) → Text → Option AuthPool → Result (Unit {0})
pool_allows equal_fold model none = err validation
pool_allows equal_fold model (some p) =
    require (p.enabled && auth_pool_allows_model equal_fold p model) validation

abbrev pub bound_pool_allows :
    (Text → Text → Bool) → Text → List AuthPool → Option Text → Result (Unit {0})
bound_pool_allows equal_fold model pools none = err validation
bound_pool_allows equal_fold model pools (some id) =
    pool_allows equal_fold model (first_pool id pools)

unfoldable pub ensure_api_key_model_allowed_by_pool :
    (Text → Text → Bool) → Bool → Database → Text → Text → Result (Unit {0})
unfolding local_auth_pool_id_for_api_key auth_pool_allows_model
ensure_api_key_model_allowed_by_pool equal_fold proxy_mode db key model =
    if not proxy_mode
    then ok tt
    else bound_pool_allows equal_fold model db.pools (local_auth_pool_id_for_api_key db key)
