-- ===== src/AuthPools.antt =====
-- backend/internal/app/auth_pools.go: who may use a pool of accounts, and for which models. A user
-- is none where the code has nil, a user without an administrator's rights is any other. `lower` is
-- `unicode.ToLower` and `equal_fold` is `strings.EqualFold`.
pub mod Users
pub mod Models
pub mod Database
pub mod Access
pub mod Bindings
pub mod Entitled
pub mod Views
mod Tests
use cpa_helper_s.Prelude.{
  ℕ, zero, suc, Bool, true, false, not, ◌&&◌, ◌||◌, Option, none, some, List, [], ◌∷◌, ltb, leb,
  ◌==◌, if◌then◌else◌, map,
}
use cpa_helper_s.Prelude.Int.{ℤ, pos, negsuc, ltb_ℤ}
use cpa_helper_s.Prelude.Text.{Text, codes, text_eq, is_empty, trim_space, normal}
use cpa_helper_s.Errors.{Result, ok, err, validation}

pub record AuthPool : Type 0 where
  pub id : Text
  pub name : Text
  pub description : Text
  pub auth_ids : List Text
  pub resolved_auth_ids : List Text
  pub account_types : List Text
  pub providers : List Text
  pub models : List Text
  pub scheduling_strategy : Text
  pub max_concurrency : ℤ
  pub visibility : Text
  pub allowed_user_ids : List ℤ
  pub enabled : Bool

pub record AuthUser : Type 0 where
  pub id : ℤ
  pub username : Text
  pub is_admin : Bool

abbrev pub admins_only : Text
admins_only = codes "admins_only"

abbrev pub all_users : Text
all_users = codes "all_users"

abbrev pub selected_users : Text
selected_users = codes "selected_users"

abbrev pub round_robin : Text
round_robin = codes "round-robin"

abbrev pub fill_first : Text
fill_first = codes "fill-first"

abbrev pub any_of : Text → List Text → Bool
any_of s [] = false
any_of s (t ∷ ts) = text_eq s t || any_of s ts

unfoldable pub same_int : ℤ → ℤ → Bool
same_int (pos m) (pos n) = m == n
same_int (negsuc m) (negsuc n) = m == n
same_int _ _ = false

-- `authPoolUserIDAllowed`, and `seen[userID]`.
unfoldable pub auth_pool_user_id_allowed : List ℤ → ℤ → Bool
unfolding same_int
auth_pool_user_id_allowed [] user = false
auth_pool_user_id_allowed (a ∷ rest) user = same_int a user || auth_pool_user_id_allowed rest user

-- `sort.Ints`.
abbrev pub insert_int : ℤ → List ℤ → List ℤ
insert_int a [] = a ∷ []
insert_int a (b ∷ bs) = if ltb_ℤ b a then b ∷ insert_int a bs else a ∷ b ∷ bs

abbrev pub sort_ints : List ℤ → List ℤ
sort_ints [] = []
sort_ints (a ∷ rest) = insert_int a (sort_ints rest)

unfoldable pub is_positive : ℤ → Bool
is_positive (negsuc n) = false
is_positive (pos n) = ltb 0 n

-- The loop of `normalizeAuthPoolUserIDs`.
unfoldable pub new_user_ids : List ℤ → List ℤ → List ℤ
unfolding auth_pool_user_id_allowed is_positive
new_user_ids seen [] = []
new_user_ids seen (a ∷ rest) =
    let skipped = new_user_ids seen rest in
    let taken = new_user_ids (a ∷ seen) rest in
    if not (is_positive a) || auth_pool_user_id_allowed seen a then skipped else a ∷ taken

unfoldable pub normalize_auth_pool_user_ids : List ℤ → List ℤ
unfolding new_user_ids
normalize_auth_pool_user_ids ids = sort_ints (new_user_ids [] ids)

abbrev pub is_nonempty : List ℤ → Bool
is_nonempty [] = false
is_nonempty (a ∷ rest) = true

module _ (lower : ℕ → ℕ) where
  unfoldable pub normalize_auth_pool_scheduling_strategy : Text → Result Text
  normalize_auth_pool_scheduling_strategy value =
      let s = normal lower value in
      if any_of s ([] ∷ round_robin ∷ codes "round_robin" ∷ codes "roundrobin" ∷ codes "rr" ∷ [])
      then ok round_robin
      else if any_of s (fill_first ∷ codes "fill_first" ∷ codes "fillfirst" ∷ codes "ff" ∷ [])
      then ok fill_first
      else err validation

  unfoldable pub normalize_auth_pool_visibility : Text → List ℤ → Result Text
  unfolding normalize_auth_pool_user_ids
  normalize_auth_pool_visibility value allowed =
      let s = normal lower value in
      if is_empty s
      then (if is_nonempty (normalize_auth_pool_user_ids allowed)
          then ok selected_users
          else ok admins_only)
      else if any_of s (admins_only ∷ all_users ∷ selected_users ∷ [])
      then ok s
      else err validation

  -- The models of a pool, as a set of lower-case names and by comparison.
  abbrev pub with_model : Text → List Text → List Text
  with_model model filter = if is_empty model then filter else map lower model ∷ filter

  abbrev pub model_filter : List Text → List Text
  model_filter [] = []
  model_filter (m ∷ ms) = with_model (trim_space m) (model_filter ms)

  unfoldable pub auth_pool_model_filter : AuthPool → List Text
  auth_pool_model_filter pool = model_filter pool.models

  -- Of a filter that may be nil.
  unfoldable pub auth_pool_model_filter_allows : Option (List Text) → Text → Bool
  auth_pool_model_filter_allows none model = true
  auth_pool_model_filter_allows (some filter) model = any_of (normal lower model) filter

abbrev pub any_equal_fold : (Text → Text → Bool) → Text → List Text → Bool
any_equal_fold equal_fold model [] = false
any_equal_fold equal_fold model (allowed ∷ rest) =
    equal_fold (trim_space allowed) model || any_equal_fold equal_fold model rest

unfoldable pub auth_pool_allows_model : (Text → Text → Bool) → AuthPool → Text → Bool
auth_pool_allows_model equal_fold pool model =
    let m = trim_space model in
    if is_empty m then false else any_equal_fold equal_fold m pool.models

unfoldable pub auth_pool_visible_to_user : AuthPool → Option AuthUser → Bool
unfolding auth_pool_user_id_allowed
auth_pool_visible_to_user pool none = true
auth_pool_visible_to_user pool (some user) =
    if user.is_admin
    then true
    else if text_eq pool.visibility all_users
    then true
    else if text_eq pool.visibility selected_users
    then auth_pool_user_id_allowed pool.allowed_user_ids user.id
    else false
