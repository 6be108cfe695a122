-- ===== src/Quota/Remote.antt =====
-- backend/internal/app/auth_settings.go: the list of API keys that the CPA service accepts, as
-- `addRemoteAPIKey` and `removeRemoteAPIKeyHash` change it. The service is a parameter; a call gives
-- its new state, which an error need not leave as it was, and the message of an error.
use cpa_helper_s.Prelude.{
  Bool, true, false, not, ◌||◌, Option, none, some, List, [], ◌∷◌, ◌++◌, if◌then◌else◌,
}
use cpa_helper_s.Prelude.Text.{Text, codes, text_eq}

pub data Reply {ℓ} (A : Type ℓ) : Type ℓ where
  done : A → Reply A
  failed : Text → Reply A

-- What the two methods read of `AppConfig`.
pub record Config : Type 0 where
  pub proxy_mode : Bool
  pub has_management_key : Bool

pub record Cpa : Type 1 where
  pub State : Type 0
  -- GET, PUT and PATCH of /v0/management/api-keys; a PATCH tells whether it is not supported.
  pub remote_api_keys : State → Reply (List Text)
  pub put_remote_api_keys : State → List Text → State × Option Text
  pub patch_remote_api_key : State → Text → State × Reply Bool

abbrev pub missing_config : Text
missing_config = codes "missing management key"

abbrev pub contains_key : Text → List Text → Bool
contains_key k [] = false
contains_key k (x ∷ xs) = text_eq x k || contains_key k xs

module _ (cpa : Cpa) where
  open cpa use {State, remote_api_keys, put_remote_api_keys, patch_remote_api_key}

  abbrev pub put_missing : Text → State → Reply (List Text) → State × Option Text
  put_missing key s (failed e) = (s, some e)
  put_missing key s (done keys) =
      if contains_key key keys then (s, none) else put_remote_api_keys s (keys ++ key ∷ [])

  -- The rest of `addRemoteAPIKey` after the PATCH.
  abbrev pub after_patch : Text → State × Reply Bool → State × Option Text
  after_patch key (s, failed e) = (s, some e)
  after_patch key (s, done false) = (s, none)
  after_patch key (s, done true) = put_missing key s (remote_api_keys s)

  unfoldable pub add_remote_api_key : Reply Config → State → Text → State × Option Text
  add_remote_api_key (failed e) s key = (s, some e)
  add_remote_api_key (done cfg) s key =
      if cfg.proxy_mode
      then (s, none)
      else if not cfg.has_management_key
      then (s, some missing_config)
      else after_patch key (patch_remote_api_key s key)

  -- `hash_api_key` is the SHA-256 of the trimmed key.
  module _ (hash_api_key : Text → Text) where
    abbrev pub without_hash : Text → List Text → List Text
    without_hash h [] = []
    without_hash h (k ∷ ks) =
        if text_eq (hash_api_key k) h then without_hash h ks else k ∷ without_hash h ks

    abbrev pub has_hash : Text → List Text → Bool
    has_hash h [] = false
    has_hash h (k ∷ ks) = text_eq (hash_api_key k) h || has_hash h ks

    abbrev pub put_without : Text → State → Reply (List Text) → State × Option Text
    put_without h s (failed e) = (s, some e)
    put_without h s (done keys) =
        if has_hash h keys then put_remote_api_keys s (without_hash h keys) else (s, none)

    unfoldable pub remove_remote_api_key_hash : Reply Config → State → Text → State × Option Text
    remove_remote_api_key_hash (failed e) s h = (s, some e)
    remove_remote_api_key_hash (done cfg) s h =
        if cfg.proxy_mode
        then (s, none)
        else if not cfg.has_management_key
        then (s, some missing_config)
        else put_without h s (remote_api_keys s)
