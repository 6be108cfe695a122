-- ===== src/Quota/Rows.antt =====
-- Rows of users and of charges, as a charge reads and writes them.
use cpa_helper_s.Prelude.{
  ℕ, ◌+◌, ◌≡◌, refl, true, false, Option, some, List, [], ◌∷◌, ◌++◌, arith, ◌==◌, if◌then◌else◌,
  contains, Distinct,
}
use cpa_helper_s.Prelude.Text.{Text}
use cpa_helper_s.Quota.{UserRecord, Charge, or_zero}
use cpa_helper_s.Quota.World.{find_user, find_username, update_user, is_charged}
use cpa_helper_s.Quota.Neutral.{user_ids, lifetime_left}

-- What the charges have taken from the lifetime balance of a user.
abbrev pub charged_to : ℕ → List Charge → ℕ
charged_to i [] = 0
charged_to i (c ∷ cs) = (if c.user_id == i then c.lifetime_deducted else 0) + charged_to i cs

abbrev pub charged_records : List Charge → List ℕ
charged_records [] = []
charged_records (c ∷ cs) = c.usage_record_id ∷ charged_records cs

-- The row with this number holds the lifetime balance of `u`.
abbrev pub Current : UserRecord → List UserRecord → Type 0
Current u us = (x : UserRecord) × (find_user u.id us ≡ some x) × (x.lifetime ≡ u.lifetime)

pub find_user-id :
    (i : ℕ) (us : List UserRecord) (x : UserRecord) → find_user i us ≡ some x → x.id ≡ i
find_user-id i [] x e = ground arith
find_user-id i (u ∷ us) x e = ground (arith, find_user-id i us x)

pub find_username-contains :
    (name : Text) (us : List UserRecord) (u : UserRecord)
    → find_username name us ≡ some u
    → contains u.id (user_ids us) ≡ true
find_username-contains name [] u e = ground arith
find_username-contains name (x ∷ us) u e = ground (arith, find_username-contains name us u)

pub find_username-find_user :
    (name : Text) (us : List UserRecord) (u : UserRecord)
    → Distinct (user_ids us)
    → find_username name us ≡ some u
    → find_user u.id us ≡ some u
find_username-find_user name [] u d e = ground arith
find_username-find_user name (x ∷ us) u d e =
    ground (arith, find_username-find_user name us u d.1, find_username-contains name us u)

pub find_user-lifetime_left :
    (i : ℕ) (us : List UserRecord) (x : UserRecord)
    → find_user i us ≡ some x
    → lifetime_left i us ≡ or_zero x.lifetime
find_user-lifetime_left i [] x e = ground arith
find_user-lifetime_left i (u ∷ us) x e = ground (arith, find_user-lifetime_left i us x)

-- An update of the rows with one number that sets their lifetime balance.
pub record SetsLifetime (l : Option ℕ) (f : UserRecord → UserRecord) : Type 0 where
  pub same_id : (u : UserRecord) → (f u).id ≡ u.id
  pub lifetime : (u : UserRecord) → (f u).lifetime ≡ l

module _ (id : ℕ) (l : Option ℕ) (f : UserRecord → UserRecord) (s : SetsLifetime l f) where
  pub write-user_ids : (us : List UserRecord) → user_ids (update_user id f us) ≡ user_ids us
  write-user_ids [] = refl
  write-user_ids (u ∷ us) = ground (arith, write-user_ids us, s.same_id u)

  pub write-others :
      (i : ℕ) (us : List UserRecord)
      → (id == i) ≡ false
      → lifetime_left i (update_user id f us) ≡ lifetime_left i us
  write-others i [] h = refl
  write-others i (u ∷ us) h = ground (arith, write-others i us, s.same_id u)

  pub write-own :
      (us : List UserRecord) (x : UserRecord)
      → find_user id us ≡ some x
      → lifetime_left id (update_user id f us) ≡ or_zero l
  write-own [] x h = ground arith
  write-own (u ∷ us) x h = ground (arith, write-own us x, s.same_id u, s.lifetime u)

pub is_charged-append :
    (r : ℕ) (cs : List Charge) (c : Charge)
    → is_charged r cs ≡ false
    → (c.usage_record_id == r) ≡ false
    → is_charged r (cs ++ c ∷ []) ≡ false
is_charged-append r [] c h k = ground arith
is_charged-append r (x ∷ cs) c h k = ground (arith, is_charged-append r cs c)

pub charged_to-append :
    (i : ℕ) (cs : List Charge) (c : Charge)
    → charged_to i (cs ++ c ∷ [])
      ≡ charged_to i cs + (if c.user_id == i then c.lifetime_deducted else 0)
charged_to-append i [] c = ground arith
charged_to-append i (x ∷ cs) c = ground (arith, charged_to-append i cs c)

contains-append_one :
    (a : ℕ) (cs : List Charge) (c : Charge)
    → contains a (charged_records cs) ≡ false
    → (c.usage_record_id == a) ≡ false
    → contains a (charged_records (cs ++ c ∷ [])) ≡ false
contains-append_one a [] c h k = ground arith
contains-append_one a (x ∷ cs) c h k = ground (arith, contains-append_one a cs c)

-- A record that has no charge yet keeps the records of the list apart.
pub append-Distinct :
    (cs : List Charge) (c : Charge)
    → Distinct (charged_records cs)
    → is_charged c.usage_record_id cs ≡ false
    → Distinct (charged_records (cs ++ c ∷ []))
append-Distinct [] c d h = (refl, tt)
append-Distinct (x ∷ cs) c d h =
    ground (arith, append-Distinct cs c d.1, contains-append_one x.usage_record_id cs c d.0)
