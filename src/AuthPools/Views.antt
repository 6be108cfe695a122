-- ===== src/AuthPools/Views.antt =====
-- backend/internal/app/auth_pools.go: the pools and bindings that a user is shown, and that they are
-- those that a key may be bound to.
use cpa_helper_s.Prelude.{
  ℕ, ◌≡◌, refl, ap, Bool, true, false, not, ◌||◌, Option, none, some, List, [], ◌∷◌, if◌then◌else◌,
  inl, inr, Bool-cases,
}
use cpa_helper_s.Prelude.Int.{ℤ}
use cpa_helper_s.Prelude.Text.{Text, text_eq, is_empty, trim_space}
use cpa_helper_s.Errors.{Result, ok, err, ◌>>◌, require, validation, forbidden}
use cpa_helper_s.AuthPools.{
  AuthPool, AuthUser, admins_only, all_users, selected_users, auth_pool_user_id_allowed,
  normalize_auth_pool_user_ids, auth_pool_visible_to_user,
}
use cpa_helper_s.AuthPools.Database.{
  Database, Plugin, Entitlement, AuthPoolBinding, pool_row, entitled,
}
use cpa_helper_s.AuthPools.Access.{World}
use cpa_helper_s.AuthPools.Bindings.{
  check_user, local_auth_pool_availability, ensure_auth_pool_binding_access,
}

-- `localAuthPools`, which joins the users a pool is for.
abbrev pub users_of : Text → List Entitlement → List ℤ
users_of pool [] = []
users_of pool (e ∷ es) =
    if text_eq e.pool_id pool then e.user_id ∷ users_of pool es else users_of pool es

abbrev pub with_users : List Entitlement → AuthPool → AuthPool
with_users es p = record p { allowed_user_ids = users_of p.id es }

abbrev pub local_pools : List Entitlement → List AuthPool → List AuthPool
local_pools es [] = []
local_pools es (p ∷ ps) = with_users es p ∷ local_pools es ps

unfoldable pub local_auth_pools : Database → List AuthPool
local_auth_pools db = local_pools db.entitlements db.pools

-- `accessByPoolID[id]`: the last pool of that ID.
abbrev pub access_for : Text → Option AuthPool → List AuthPool → Option AuthPool
access_for id found [] = found
access_for id found (p ∷ ps) =
    access_for id (if text_eq (trim_space p.id) id then some p else found) ps

abbrev pub with_access : AuthPool → Option AuthPool → AuthPool
with_access p none = record p { visibility = admins_only; allowed_user_ids = [] }
with_access p (some access) = record p {
  visibility = (if is_empty access.visibility then admins_only else access.visibility);
  allowed_user_ids = normalize_auth_pool_user_ids access.allowed_user_ids;
}

unfoldable pub auth_pools_visible_to_user :
    List AuthPool → List AuthPool → Option AuthUser → List AuthPool
unfolding normalize_auth_pool_user_ids auth_pool_visible_to_user
auth_pools_visible_to_user [] locals user = []
auth_pools_visible_to_user (p ∷ ps) locals user =
    let q = with_access p (access_for (trim_space p.id) none locals) in
    let rest = auth_pools_visible_to_user ps locals user in
    if auth_pool_visible_to_user q user then q ∷ rest else rest

abbrev pub has_pool : Text → List AuthPool → Bool
has_pool id [] = false
has_pool id (p ∷ ps) = text_eq (trim_space p.id) id || has_pool id ps

unfoldable pub auth_pool_bindings_visible_to_pools :
    List AuthPoolBinding → List AuthPool → List AuthPoolBinding
auth_pool_bindings_visible_to_pools [] pools = []
auth_pool_bindings_visible_to_pools (b ∷ bs) pools =
    let rest = auth_pool_bindings_visible_to_pools bs pools in
    if has_pool (trim_space b.pool_id) pools then b ∷ rest else rest

users_of-allowed :
    (pool : Text) (user : ℤ) (es : List Entitlement)
    → auth_pool_user_id_allowed (users_of pool es) user ≡ entitled pool user es
unfolding auth_pool_user_id_allowed entitled
users_of-allowed pool user [] = refl
users_of-allowed pool user (e ∷ es) = elim (Bool-cases (text_eq e.pool_id pool)) [
  | inl h ↦ rw (h) (rw (users_of-allowed pool user es) refl)
  | inr h ↦ rw (h) (users_of-allowed pool user es)
]

checked :
    (admin all selected listed : Bool)
    → (if admin
        then ok tt
        else if all
        then ok tt
        else if not selected
        then err forbidden
        else require listed forbidden)
      ≡ (if (if admin then true else if all then true else if selected then listed else false)
          then ok tt
          else err forbidden)
checked true all selected listed = refl
checked false true selected listed = refl
checked false false true listed = refl
checked false false false listed = refl

-- A blank visibility is for administrators only.
checked_text :
    (admin listed : Bool) (v : Text)
    → (let w = if is_empty v then admins_only else v in
        if admin
        then ok tt
        else if text_eq w all_users
        then ok tt
        else if not (text_eq w selected_users)
        then err forbidden
        else require listed forbidden)
      ≡ (if (if admin
            then true
            else if text_eq v all_users
            then true
            else if text_eq v selected_users
            then listed
            else false)
          then ok tt
          else err forbidden)
unfolding text_eq
checked_text admin listed [] = checked admin false false listed
checked_text admin listed (c ∷ cs) =
    checked admin (text_eq (c ∷ cs) all_users) (text_eq (c ∷ cs) selected_users) listed

check_user-visible :
    (db : Database) (user : AuthUser) (p : AuthPool)
    → check_user db p.id (if is_empty p.visibility then admins_only else p.visibility) (some user)
      ≡ (if auth_pool_visible_to_user (with_users db.entitlements p) (some user)
          then ok tt
          else err forbidden)
unfolding auth_pool_visible_to_user
check_user-visible db user p =
    rw (users_of-allowed p.id user.id db.entitlements)
      (checked_text user.is_admin (entitled p.id user.id db.entitlements) p.visibility)

enabled_first :
    (b : Bool) (rest : Result (Unit {0}))
    → (require b validation >> rest) ≡ (if not b then err validation else rest)
enabled_first true rest = refl
enabled_first false rest = refl

-- A user may bind a key to a pool that the database has, if and only if the pool is enabled and its
-- row, with the users it is for, is visible to the user; a disabled pool is an error of validation, and
-- one that is not visible is forbidden. Nothing changes.
pub ensure_auth_pool_binding_access-auth_pool_visible_to_user :
    (lower : ℕ → ℕ) (plugin : Plugin) (w : World lower plugin) (user : AuthUser) (p : AuthPool)
    → pool_row p.id w.0.pools ≡ some p
    → ensure_auth_pool_binding_access lower plugin w (some user) p.id ≡ (
      w,
      (if not p.enabled
          then err validation
          else if auth_pool_visible_to_user (with_users w.0.entitlements p) (some user)
          then ok tt
          else err forbidden),
    )
unfolding ensure_auth_pool_binding_access local_auth_pool_availability
ensure_auth_pool_binding_access-auth_pool_visible_to_user lower plugin (db, s) user p row =
    rw row (rw (check_user-visible db user p) (ap (λ r. ((db, s), r)) (enabled_first p.enabled _)))
