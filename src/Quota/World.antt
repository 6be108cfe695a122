-- ===== src/Quota/World.antt =====
-- backend/internal/app/quota.go: the database rows, the methods' monad and the statements on one user.
-- SQL statements are taken to succeed.
use cpa_helper_s.Prelude.{
  ℕ, Bool, true, false, not, ◌&&◌, ◌||◌, Option, none, some, List, [], ◌∷◌, ◌==◌, if◌then◌else◌,
  take,
}
use cpa_helper_s.Prelude.Text.{Text, codes, text_eq, is_empty, trim_space}
use cpa_helper_s.Errors.{Result, ok, err, not_found}
use cpa_helper_s.Quota.{UserRecord, UserApiKey, Charge, is_some}
use cpa_helper_s.Quota.Remote.{Reply, done, failed, Config, Cpa}

abbrev pub find_user : ℕ → List UserRecord → Option UserRecord
find_user id [] = none
find_user id (u ∷ us) = if u.id == id then some u else find_user id us

-- `UPDATE users SET … WHERE id = ?`
abbrev pub update_user : ℕ → (UserRecord → UserRecord) → List UserRecord → List UserRecord
update_user id f [] = []
update_user id f (u ∷ us) = (if u.id == id then f u else u) ∷ update_user id f us

abbrev pub find_username : Text → List UserRecord → Option UserRecord
find_username name [] = none
find_username name (u ∷ us) = if text_eq u.username name then some u else find_username name us

abbrev pub keys_of : ℕ → List UserApiKey → List UserApiKey
keys_of id [] = []
keys_of id (k ∷ ks) = if k.user_id == id then k ∷ keys_of id ks else keys_of id ks

abbrev pub is_charged : ℕ → List Charge → Bool
is_charged r [] = false
is_charged r (c ∷ cs) = c.usage_record_id == r || is_charged r cs

abbrev pub exhausted_reason : Text
exhausted_reason = codes "quota_exhausted"

abbrev pub cannot_restore : Text
cannot_restore = codes "Some API keys cannot be restored. Rebind them before restoring"

-- `message[:1000]`, of a message as the list of its bytes.
abbrev pub clip : Text → Text
clip message = take 1000 message

-- `nonBlank`.
abbrev pub non_blank : Text → Text → Text
non_blank value fallback = if is_empty (trim_space value) then fallback else value

abbrev pub all_have_keys : List UserApiKey → Bool
all_have_keys [] = true
all_have_keys (k ∷ ks) = is_some k.api_key && all_have_keys ks

abbrev pub in_proxy_mode : Reply Config → Bool
in_proxy_mode (failed e) = false
in_proxy_mode (done cfg) = cfg.proxy_mode

-- `err == nil && !authPoolProxyModeEnabled(cfg)`
abbrev pub in_key_mode : Reply Config → Bool
in_key_mode (failed e) = false
in_key_mode (done cfg) = not cfg.proxy_mode

-- The database, the configuration as it loads, and the service.
pub record World (cpa : Cpa) : Type 0 where
  pub users : List UserRecord
  pub keys : List UserApiKey
  pub charges : List Charge
  pub config : Reply Config
  pub remote : cpa.State

-- A method: what it has written stays, also where it returns an error.
abbrev pub M : Cpa → Type 0 → Type 0
M cpa A = World cpa → World cpa × Result A

abbrev pub proceed :
    {cpa : Cpa} {A B : Type 0} → World cpa × Result A → (A → M cpa B) → World cpa × Result B
proceed (w, ok a) f = f a w
proceed (w, err e) f = (w, err e)

infixl 5 ◌>>=◌ ◌>>◌
abbrev pub ◌>>=◌ : {cpa : Cpa} {A B : Type 0} → M cpa A → (A → M cpa B) → M cpa B
◌>>=◌ m f w = proceed (m w) f

abbrev pub ◌>>◌ : {cpa : Cpa} {A B : Type 0} → M cpa A → M cpa B → M cpa B
◌>>◌ m k w = proceed (m w) (λ _. k)

abbrev pub return : {cpa : Cpa} {A : Type 0} → A → M cpa A
return a w = (w, ok a)

-- `_ = …`
abbrev pub ignore_error : {cpa : Cpa} {A : Type 0} → M cpa A → M cpa (Unit {0})
ignore_error m w = ((m w).0, ok tt)

module _ (cpa : Cpa) where
  abbrev pub update : ℕ → (UserRecord → UserRecord) → M cpa (Unit {0})
  update id f w = (record w { users = update_user id f w.users }, ok tt)

  abbrev pub found : World cpa → Option UserRecord → World cpa × Result UserRecord
  found w none = (w, err not_found)
  found w (some u) = (w, ok u)

  unfoldable pub get_user : ℕ → M cpa UserRecord
  get_user id w = found w (find_user id w.users)

  unfoldable pub set_quota_sync_message : ℕ → Text → M cpa (Unit {0})
  set_quota_sync_message id message = update id (λ u. record u { sync_error = some (clip message) })
