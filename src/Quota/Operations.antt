-- ===== src/Quota/Operations.antt =====
-- backend/internal/app/quota.go: pausing and restoring a user's keys, over the rows of the database
-- and the CPA service. All calls of one method happen at one time `now`.
use cpa_helper_s.Prelude.{
  ℕ, not, ◌&&◌, ◌||◌, Option, none, some, List, [], ◌∷◌, ◌++◌, if◌then◌else◌,
}
use cpa_helper_s.Prelude.Text.{Text, text_eq}
use cpa_helper_s.Errors.{Result, ok, err, conflict}
use cpa_helper_s.Quota.{
  UserRecord, UserApiKey, QuotaStatus, is_some, is_none, quota_is_unlimited, quota_has_available,
  quota_status_from_user,
}
use cpa_helper_s.Quota.Remote.{Cpa, add_remote_api_key, remove_remote_api_key_hash}
use cpa_helper_s.Quota.World.{
  M, World, all_have_keys, cannot_restore, exhausted_reason, get_user, ignore_error, in_key_mode,
  in_proxy_mode, keys_of, return, set_quota_sync_message, update, update_user, ◌>>=◌, ◌>>◌,
}

-- `month_of` is the month of a time in the program's time zone, as text.
module _ (cpa : Cpa) (hash_api_key : Text → Text) (month_of : ℕ → Text) (now : ℕ) where
  abbrev pub new_month : UserRecord → UserRecord
  new_month u = record u { month = month_of now; month_used = 0; sync_error = none }

  unfoldable pub ensure_quota_month : UserRecord → M cpa UserRecord
  unfolding get_user
  ensure_quota_month u =
      if is_none u.monthly || text_eq u.month (month_of now)
      then return u
      else (do update cpa u.id new_month; get_user cpa u.id)

  abbrev pub after_removal :
      ℕ → (World cpa → World cpa) → World cpa → cpa.State × Option Text → World cpa
  after_removal id go_on w (s, none) = go_on (record w { remote = s })
  after_removal id go_on w (s, some e) =
      (set_quota_sync_message cpa id e (record w { remote = s })).0

  -- The loop over the keys stops at the first error.
  unfoldable pub remove_keys : ℕ → List UserApiKey → World cpa → World cpa
  remove_keys id [] w = w
  remove_keys id (k ∷ ks) w =
      after_removal id (remove_keys id ks) w
        (remove_remote_api_key_hash cpa hash_api_key w.config w.remote k.api_key_hash)

  abbrev pub pause_row : Text → UserRecord → UserRecord
  pause_row reason u = record u {
    paused_at = (elim u.paused_at [ none ↦ some now | some t ↦ some t ]);
    pause_reason = some reason;
    sync_error = none;
  }

  -- `pauseUserKeysForQuota` from the UPDATE on.
  unfoldable pub pause_now : ℕ → Text → M cpa (Unit {0})
  unfolding remove_keys
  pause_now id reason w =
      let v = record w { users = update_user id (pause_row reason) w.users } in
      if in_proxy_mode v.config then (v, ok tt) else (remove_keys id (keys_of id v.keys) v, ok tt)

  unfoldable pub pause_user_keys_for_quota : ℕ → Text → M cpa (Unit {0})
  unfolding get_user pause_now
  pause_user_keys_for_quota id reason = do
    u ← get_user cpa id
    if is_some u.paused_at && is_none u.sync_error then return tt else pause_now id reason

  -- `for _, hash := range restored { _ = a.removeRemoteAPIKeyHash(ctx, hash) }`
  unfoldable pub roll_back : List Text → World cpa → World cpa
  roll_back [] w = w
  roll_back (h ∷ hs) w =
      roll_back hs
        (record w { remote = (remove_remote_api_key_hash cpa hash_api_key w.config w.remote h).0 })

  abbrev pub unpause_row : UserRecord → UserRecord
  unpause_row u = record u { paused_at = none; pause_reason = none; sync_error = none }

  unfoldable pub unpause : ℕ → M cpa (Unit {0})
  unpause id = update cpa id unpause_row

  -- The error path of the loop over the keys: what was restored is taken back.
  unfoldable pub restore_failed : ℕ → List Text → Text → M cpa (Unit {0})
  unfolding roll_back set_quota_sync_message
  restore_failed id restored e w = set_quota_sync_message cpa id e (roll_back restored w)

  abbrev pub after_add :
      ℕ
      → (List Text → World cpa → World cpa × Result (Unit {0}))
      → Text
      → List Text
      → World cpa
      → cpa.State × Option Text
      → World cpa × Result (Unit {0})
  after_add id go_on h restored w (s, none) = go_on (restored ++ h ∷ []) (record w { remote = s })
  after_add id go_on h restored w (s, some e) =
      restore_failed id restored e (record w { remote = s })

  abbrev pub key_text : Option Text → Text
  key_text none = []
  key_text (some k) = k

  unfoldable pub restore_keys : ℕ → List UserApiKey → List Text → M cpa (Unit {0})
  unfolding unpause restore_failed
  restore_keys id [] restored w = unpause id w
  restore_keys id (k ∷ ks) restored w =
      after_add id (λ done. restore_keys id ks done) k.api_key_hash restored w
        (add_remote_api_key cpa w.config w.remote (key_text k.api_key))

  -- `restoreQuotaPausedUserIfAvailable` after its early returns. A configuration that does not load
  -- skips the keys.
  unfoldable pub restore_now : ℕ → M cpa (Unit {0})
  unfolding restore_keys
  restore_now id w =
      if in_key_mode w.config
      then (if all_have_keys (keys_of id w.keys)
          then restore_keys id (keys_of id w.keys) [] w
          else set_quota_sync_message cpa id cannot_restore w)
      else unpause id w

  unfoldable pub restore_quota_paused_user_if_available : ℕ → M cpa (Unit {0})
  unfolding get_user ensure_quota_month restore_now
  restore_quota_paused_user_if_available id = do
    u ← get_user cpa id
    v ← ensure_quota_month u
    if is_none v.paused_at || is_some v.disabled_at || not (quota_has_available v)
        then return tt
        else restore_now id

  -- `userQuotaStatus` pauses or restores as the balances say, and reads the row again.
  unfoldable pub settle : UserRecord → M cpa UserRecord
  unfolding get_user restore_quota_paused_user_if_available pause_user_keys_for_quota
  settle v =
      if is_some v.paused_at
      then (do ignore_error (restore_quota_paused_user_if_available v.id); get_user cpa v.id)
      else if not (quota_is_unlimited v) && not (quota_has_available v)
      then (do ignore_error (pause_user_keys_for_quota v.id exhausted_reason); get_user cpa v.id)
      else return v

  unfoldable pub user_quota_status : ℕ → M cpa QuotaStatus
  unfolding get_user ensure_quota_month settle
  user_quota_status id = do
    u ← get_user cpa id
    v ← ensure_quota_month u
    s ← settle v
    return (quota_status_from_user s)

  unfoldable pub ensure_user_quota_ready_for_keys : ℕ → M cpa (Unit {0})
  unfolding user_quota_status
  ensure_user_quota_ready_for_keys id = do
    s ← user_quota_status id
    if s.can_create_keys then return tt else (λ w. (w, err conflict))
