-- ===== src/AuthPools/Database.antt =====
-- backend/internal/app/auth_pools.go: the tables of pools, of the users a pool is for, of API keys,
-- of users and of the pool that a key is bound to, with the plugin that serves the pools. A row
-- without its times; a table is the list of its rows, in the order in which a query gives them.
-- Beside the foreign keys of the tables, the database is taken to do what it is asked.
use cpa_helper_s.Prelude.{
  ℕ, Bool, true, false, ◌&&◌, ◌||◌, Option, none, some, List, [], ◌∷◌, if◌then◌else◌,
}
use cpa_helper_s.Prelude.Int.{ℤ}
use cpa_helper_s.Prelude.Text.{Text, text_eq, is_empty, trim_space}
use cpa_helper_s.Errors.{Result, ok, err, then_do}
use cpa_helper_s.AuthPools.{
  AuthPool, same_int, admins_only, normalize_auth_pool_scheduling_strategy,
  normalize_auth_pool_visibility,
}

pub record Key : Type 0 where
  pub api_key_hash : Text
  pub user_id : ℤ
  pub description : Text

pub record User : Type 0 where
  pub id : ℤ
  pub username : Text
  pub is_admin : Bool

pub record Entitlement : Type 0 where
  pub pool_id : Text
  pub user_id : ℤ

pub record Row : Type 0 where
  pub api_key_hash : Text
  pub pool_id : Text

pub record AuthPoolBinding : Type 0 where
  pub api_key_hash : Text
  pub api_key_description : Text
  pub pool_id : Text
  pub user_id : ℤ
  pub username : Text

pub record Database : Type 0 where
  pub pools : List AuthPool
  pub entitlements : List Entitlement
  pub keys : List Key
  pub users : List User
  pub bindings : List Row

-- The plugin: what a request makes of its state, and the error or what it answers.
pub record Plugin : Type 1 where
  pub State : Type 0
  pub put_binding : State → AuthPoolBinding → State × Result AuthPoolBinding
  pub delete_binding : State → Text → State × Result (Unit {0})
  pub status : State → State × Result (List AuthPool)

-- Rows by their keys.
unfoldable pub pool_row : Text → List AuthPool → Option AuthPool
pool_row id [] = none
pool_row id (p ∷ rest) = if text_eq p.id id then some p else pool_row id rest

unfoldable pub key_row : Text → List Key → Option Key
key_row hash [] = none
key_row hash (k ∷ rest) = if text_eq k.api_key_hash hash then some k else key_row hash rest

unfoldable pub user_row : ℤ → List User → Option User
user_row id [] = none
user_row id (u ∷ rest) = if same_int u.id id then some u else user_row id rest

unfoldable pub binding_row : Text → List Row → Option Row
binding_row hash [] = none
binding_row hash (b ∷ rest) = if text_eq b.api_key_hash hash then some b else binding_row hash rest

unfoldable pub entitled : Text → ℤ → List Entitlement → Bool
entitled pool user [] = false
entitled pool user (e ∷ rest) =
    text_eq e.pool_id pool && same_int e.user_id user || entitled pool user rest

abbrev pub is_some {ℓ} : {A : Type ℓ} → Option A → Bool
is_some none = false
is_some (some a) = true

abbrev pub and_user : Key → Option User → Option (Key × User)
and_user k none = none
and_user k (some u) = some (k, u)

abbrev pub owner_of : Option Key → List User → Option (Key × User)
owner_of none users = none
owner_of (some k) users = and_user k (user_row k.user_id users)

-- JOIN user_api_keys and JOIN users.
unfoldable pub owner : Database → Text → Option (Key × User)
unfolding key_row user_row
owner db hash = owner_of (key_row hash db.keys) db.users

-- INSERT ... ON CONFLICT(id) DO UPDATE, of a pool and of the pool of a key.
unfoldable pub put_pool : AuthPool → List AuthPool → List AuthPool
put_pool p [] = p ∷ []
put_pool p (q ∷ rest) = if text_eq q.id p.id then p ∷ rest else q ∷ put_pool p rest

unfoldable pub put_row : Row → List Row → List Row
put_row b [] = b ∷ []
put_row b (c ∷ rest) =
    if text_eq c.api_key_hash b.api_key_hash then b ∷ rest else c ∷ put_row b rest

-- `marshalStringList`, read back.
abbrev pub with_visible : Text → List Text → List Text
with_visible t rest = if is_empty t then rest else t ∷ rest

abbrev pub cleaned : List Text → List Text
cleaned [] = []
cleaned (t ∷ rest) = with_visible (trim_space t) (cleaned rest)

abbrev pub stored_visibility : Option AuthPool → Text
stored_visibility none = admins_only
stored_visibility (some p) = p.visibility

module _ (lower : ℕ → ℕ) where
  abbrev pub saved_row : AuthPool → Text → Text → Text → Text → AuthPool
  saved_row p id name strategy visibility = record p {
    id = id;
    name = name;
    description = trim_space p.description;
    auth_ids = cleaned p.auth_ids;
    resolved_auth_ids = cleaned p.resolved_auth_ids;
    account_types = cleaned p.account_types;
    providers = cleaned p.providers;
    models = cleaned p.models;
    scheduling_strategy = strategy;
    visibility = visibility;
    allowed_user_ids = [];
  }

  -- The visibility that a pool is saved with: its own, or else the stored one.
  abbrev pub visibility_to_save : AuthPool → List AuthPool → Text
  visibility_to_save p pools =
      if is_empty (trim_space p.visibility)
      then stored_visibility (pool_row (trim_space p.id) pools)
      else p.visibility

  unfoldable pub save_local_auth_pool : AuthPool → List AuthPool → Result (List AuthPool)
  unfolding pool_row put_pool
  save_local_auth_pool p pools =
      let id = trim_space p.id in
      let name = trim_space p.name in
      if is_empty id || is_empty name
      then ok pools
      else then_do
          (λ strategy.
            then_do (λ visibility. ok (put_pool (saved_row p id name strategy visibility) pools))
              (normalize_auth_pool_visibility lower (visibility_to_save p pools)
                p.allowed_user_ids))
          (normalize_auth_pool_scheduling_strategy lower p.scheduling_strategy)

  abbrev pub continue_save :
      (List AuthPool → List AuthPool × Result (Unit {0}))
      → List AuthPool
      → Result (List AuthPool)
      → List AuthPool × Result (Unit {0})
  continue_save next pools (err e) = (pools, err e)
  continue_save next pools (ok saved) = next saved

  -- The rows that were saved before an error stay.
  abbrev pub save_local_auth_pools :
      List AuthPool → List AuthPool → List AuthPool × Result (Unit {0})
  save_local_auth_pools [] pools = (pools, ok tt)
  save_local_auth_pools (p ∷ rest) pools =
      continue_save (save_local_auth_pools rest) pools (save_local_auth_pool p pools)
