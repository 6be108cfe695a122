-- ===== src/AuthPools/Entitled.antt =====
-- backend/internal/app/auth_pools.go: a key stays bound to a pool only while its owner may use it, as
-- users bind and unbind their keys and an administrator changes who a pool is for.
pub mod Saving
pub mod Requests
pub mod Runs
use cpa_helper_s.Prelude.{
  ℕ, ◌≡◌, refl, ap, sym, ◌∙◌, Bool, true, false, not, ◌&&◌, ◌||◌, Option, none, some, List, [], ◌∷◌,
  if◌then◌else◌, arith, inl, inr, Bool-cases, Option-cases, All, All-map,
}
use cpa_helper_s.Prelude.Int.{ℤ}
use cpa_helper_s.Prelude.Text.{Text, text_eq, text_eq_iff, is_empty, trim_space}
use cpa_helper_s.Errors.{
  Result, ok, err, require, ◌>>◌, then_do, require-eq-ok, forbidden, not_found, validation,
}
use cpa_helper_s.AuthPools.{AuthPool, AuthUser, same_int, all_users, selected_users, admins_only}
use cpa_helper_s.AuthPools.Users.{same_int_eq}
use cpa_helper_s.AuthPools.Database.{
  Database, Plugin, Key, User, Row, AuthPoolBinding, pool_row, key_row, user_row, owner, owner_of,
  and_user, put_row, entitled, save_local_auth_pools,
}
use cpa_helper_s.AuthPools.Access.{World}
use cpa_helper_s.AuthPools.Access.Replaced.{
  may_use_row, may_use, may_hold, is_row_allowed, Exempt, is_exempt, AllAllowed,
}
use cpa_helper_s.AuthPools.Bindings.{
  is_key_of, availability_of, check_user, check_pool, local_auth_pool_availability, without_row,
  with_row,
}
use cpa_helper_s.AuthPools.Entitled.Saving.{Grows}

-- Rows that are put or taken away.
All-put_row : (P : Row → Type 0) (b : Row) (bs : List Row) → P b → All P bs → All P (put_row b bs)
unfolding put_row
All-put_row P b [] p all = (p, tt)
All-put_row P b (c ∷ bs) p all = elim (Bool-cases (text_eq c.api_key_hash b.api_key_hash)) [
  | inl e ↦ rw e (p, all.1)
  | inr e ↦ rw e (all.0, All-put_row P b bs p all.1)
]

All-without_row :
    (P : Row → Type 0) (hash : Text) (bs : List Row) → All P bs → All P (without_row hash bs)
All-without_row P hash [] all = tt
All-without_row P hash (b ∷ bs) all = elim (Bool-cases (text_eq b.api_key_hash hash)) [
  | inl e ↦ rw (without_row, e) (All-without_row P hash bs all.1)
  | inr e ↦ rw (without_row, e) (all.0, All-without_row P hash bs all.1)
]

pub AllAllowed-without_row :
    (x : Exempt) (db : Database) (hash : Text)
    → AllAllowed x db
    → AllAllowed x (record db { bindings = without_row hash db.bindings })
unfolding owner
AllAllowed-without_row x db hash all = All-without_row _ hash db.bindings all

pub AllAllowed-with_row :
    (x : Exempt) (db : Database) (b : Row)
    → AllAllowed x db
    → (is_exempt x b ≡ false → is_row_allowed db b ≡ true)
    → AllAllowed x (with_row b db)
unfolding owner
AllAllowed-with_row x db b all allowed = All-put_row _ b db.bindings allowed all

right-false : (a b : Bool) → (a || b) ≡ false → b ≡ false
right-false a b h = ground arith

may_hold-Grows :
    (x : Exempt) (db : Database) (pools : List AuthPool) (pool : Text) (o : Option (Key × User))
    → Grows x.pools db.pools pools
    → x.pools pool ≡ false
    → may_hold db pool o ≡ true
    → may_hold (record db { pools = pools }) pool o ≡ true
may_hold-Grows x db pools pool none grows n h = refl
may_hold-Grows x db pools pool (some (k, u)) grows n h = elim (Bool-cases u.is_admin) [
  | inl e ↦ rw e refl
  | inr e ↦ rw e (grows pool (entitled pool k.user_id db.entitlements) n (ground arith))
]

pub AllAllowed-Grows :
    (x : Exempt) (db : Database) (pools : List AuthPool)
    → Grows x.pools db.pools pools
    → AllAllowed x db
    → AllAllowed x (record db { pools = pools })
unfolding owner
AllAllowed-Grows x db pools grows all =
    All-map _ _ db.bindings
      (λ b h n.
        may_hold-Grows x db pools b.pool_id (owner db b.api_key_hash) grows
          (right-false (x.keys b.api_key_hash) (x.pools b.pool_id) n) (h n))
      all

-- A user who passes the checks, and is no administrator, may use the pool.
granted :
    (all selected listed : Bool)
    → (if all then ok tt else if not selected then err forbidden else require listed forbidden)
      ≡ ok tt
    → (all || selected && listed) ≡ true
granted true selected listed h = refl
granted false true true h = refl
granted false true false h = cc
granted false false listed h = cc

granted_text :
    (v : Text) (listed : Bool)
    → (let w = if is_empty v then admins_only else v in
        if text_eq w all_users
        then ok tt
        else if not (text_eq w selected_users)
        then err forbidden
        else require listed forbidden)
      ≡ ok tt
    → (text_eq v all_users || text_eq v selected_users && listed) ≡ true
unfolding text_eq
granted_text [] listed h = cc
granted_text (c ∷ cs) listed h =
    granted (text_eq (c ∷ cs) all_users) (text_eq (c ∷ cs) selected_users) listed h

not_admin :
    (admin : Bool) (rest : Result (Unit {0}))
    → admin ≡ false
    → (if admin then ok tt else rest) ≡ ok tt
    → rest ≡ ok tt
not_admin true rest plain h = cc
not_admin false rest plain h = h

check_pool-row :
    (db : Database) (user : AuthUser) (pool : Text) (o : Option AuthPool)
    → user.is_admin ≡ false
    → check_pool db (some user) pool (availability_of o) ≡ ok tt
    → may_use_row o (entitled pool user.id db.entitlements) ≡ true
check_pool-row db user pool none plain h = cc
check_pool-row db user pool (some p) plain h =
    let passed = require-eq-ok p.enabled validation _ h in
    granted_text p.visibility (entitled pool user.id db.entitlements)
      (not_admin user.is_admin _ plain passed.1)

pub check_pool-may_use :
    (db : Database) (user : AuthUser) (pool : Text)
    → user.is_admin ≡ false
    → check_pool db (some user) pool (local_auth_pool_availability db pool) ≡ ok tt
    → may_use db pool user.id ≡ true
unfolding local_auth_pool_availability
check_pool-may_use db user pool plain h =
    check_pool-row db user pool (pool_row pool db.pools) plain h

-- The right to bind a key: it is one's own, or the owner is an administrator.
abbrev owner_is_admin : Option (Key × User) → Bool
owner_is_admin none = true
owner_is_admin (some (k, u)) = u.is_admin

abbrev pub has_right : Database → AuthUser → Text → Bool
has_right db user hash = not user.is_admin || owner_is_admin (owner db hash)

may_hold-of_key :
    (db : Database) (pool : Text) (user : AuthUser) (k : Key) (o : Option User)
    → (user.is_admin || same_int k.user_id user.id) ≡ true
    → (not user.is_admin || owner_is_admin (and_user k o)) ≡ true
    → (user.is_admin ≡ false → may_use db pool user.id ≡ true)
    → may_hold db pool (and_user k o) ≡ true
may_hold-of_key db pool user k none own right may = refl
may_hold-of_key db pool user k (some u) own right may = elim (Bool-cases user.is_admin) [
  | inl e ↦ let admin : u.is_admin ≡ true = ground arith in rw admin refl
  | inr e ↦
      let same : k.user_id ≡ user.id = same_int_eq k.user_id user.id (ground arith) in
      rw (same, may e) (ground arith)
]

pub may_hold-bound :
    (db : Database) (pool : Text) (user : AuthUser) (key : Option Key)
    → is_key_of (some user) key ≡ true
    → (not user.is_admin || owner_is_admin (owner_of key db.users)) ≡ true
    → (user.is_admin ≡ false → may_use db pool user.id ≡ true)
    → may_hold db pool (owner_of key db.users) ≡ true
may_hold-bound db pool user none own right may = refl
may_hold-bound db pool user (some k) own right may =
    may_hold-of_key db pool user k (user_row k.user_id db.users) own right may
