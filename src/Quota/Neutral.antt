-- ===== src/Quota/Neutral.antt =====
-- Pausing, restoring and the turn of a month leave lifetime balances and charges alone.
use cpa_helper_s.Prelude.{
  ℕ, ◌≡◌, refl, ◌∙◌, Bool, true, false, not, ◌&&◌, ◌||◌, Option, none, some, List, [], ◌∷◌, arith,
  ◌==◌, if◌then◌else◌, Option-cases, inl, inr,
}
use cpa_helper_s.Prelude.Text.{Text, text_eq}
use cpa_helper_s.Errors.{Result, ok, err}
use cpa_helper_s.Quota.{UserRecord, UserApiKey, or_zero, is_some, is_none, quota_has_available}
use cpa_helper_s.Quota.Remote.{Cpa}
use cpa_helper_s.Quota.World.{
  World, M, find_user, update_user, get_user, set_quota_sync_message, keys_of, proceed, return,
  in_proxy_mode, in_key_mode, all_have_keys, cannot_restore,
}
use cpa_helper_s.Quota.Operations.{
  ensure_quota_month, after_removal, remove_keys, pause_now, pause_user_keys_for_quota, roll_back,
  unpause, restore_failed, after_add, restore_keys, restore_now,
  restore_quota_paused_user_if_available, pause_row,
}

abbrev pub user_ids : List UserRecord → List ℕ
user_ids [] = []
user_ids (u ∷ us) = u.id ∷ user_ids us

-- The lifetime balance of the user with this number.
abbrev pub lifetime_left : ℕ → List UserRecord → ℕ
lifetime_left i [] = 0
lifetime_left i (u ∷ us) = if u.id == i then or_zero u.lifetime else lifetime_left i us

pub record Neutral {cpa : Cpa} (w v : World cpa) : Type 0 where
  pub same_ids : user_ids v.users ≡ user_ids w.users
  pub same_lifetime : (i : ℕ) → lifetime_left i v.users ≡ lifetime_left i w.users
  pub same_charges : v.charges ≡ w.charges

abbrev KeepsRow : (UserRecord → UserRecord) → Type 0
KeepsRow f = (u : UserRecord) → ((f u).id ≡ u.id) × ((f u).lifetime ≡ u.lifetime)

update-user_ids :
    (id : ℕ) (f : UserRecord → UserRecord) (us : List UserRecord)
    → KeepsRow f
    → user_ids (update_user id f us) ≡ user_ids us
update-user_ids id f [] k = refl
update-user_ids id f (u ∷ us) k = ground (arith, update-user_ids id f us k, k u)

update-lifetime_left :
    (i id : ℕ) (f : UserRecord → UserRecord) (us : List UserRecord)
    → KeepsRow f
    → lifetime_left i (update_user id f us) ≡ lifetime_left i us
update-lifetime_left i id f [] k = refl
update-lifetime_left i id f (u ∷ us) k = ground (arith, update-lifetime_left i id f us k, k u)

module _ {cpa : Cpa} where
  pub Neutral-refl : (w : World cpa) → Neutral w w
  Neutral-refl w = record { same_ids = refl; same_lifetime = λ i. refl; same_charges = refl }

  pub Neutral-trans : {w v u : World cpa} → Neutral w v → Neutral v u → Neutral w u
  Neutral-trans a b = record {
    same_ids = b.same_ids ∙ a.same_ids;
    same_lifetime = λ i. b.same_lifetime i ∙ a.same_lifetime i;
    same_charges = b.same_charges ∙ a.same_charges;
  }

  pub update-Neutral :
      (w : World cpa) (id : ℕ) (f : UserRecord → UserRecord)
      → KeepsRow f
      → Neutral w (record w { users = update_user id f w.users })
  update-Neutral w id f k = record {
    same_ids = update-user_ids id f w.users k;
    same_lifetime = λ i. update-lifetime_left i id f w.users k;
    same_charges = refl;
  }

  remote-Neutral : (w : World cpa) (s : cpa.State) → Neutral w (record w { remote = s })
  remote-Neutral w s = record { same_ids = refl; same_lifetime = λ i. refl; same_charges = refl }

  get_user-Neutral : (id : ℕ) (w : World cpa) → Neutral w (get_user cpa id w).0
  unfolding get_user
  get_user-Neutral id w = elim (Option-cases (find_user id w.users)) [
    | inl e ↦ rw e (Neutral-refl w)
    | inr (u, e) ↦ rw e (Neutral-refl w)
  ]

  set_message-Neutral :
      (id : ℕ) (m : Text) (w : World cpa) → Neutral w (set_quota_sync_message cpa id m w).0
  unfolding set_quota_sync_message
  set_message-Neutral id m w = update-Neutral w id _ (λ u. (refl, refl))

  -- Neutral steps in sequence.
  bind-Neutral :
      {A B : Type 0} (w : World cpa) (r : World cpa × Result A) (f : A → M cpa B)
      → Neutral w r.0
      → ((a : A) (v : World cpa) → Neutral v (f a v).0)
      → Neutral w (proceed r f).0
  bind-Neutral w (v, ok a) f n k = Neutral-trans n (k a v)
  bind-Neutral w (v, err e) f n k = n

  if-Neutral :
      {A : Type 0} (b : Bool) (w : World cpa) (m k : World cpa × A)
      → Neutral w m.0
      → Neutral w k.0
      → Neutral w (if b then m else k).0
  if-Neutral true w m k n o = n
  if-Neutral false w m k n o = o

  branch-Neutral :
      {A : Type 0} (b : Bool) (w : World cpa) (m k : World cpa → World cpa × A)
      → Neutral w (m w).0
      → Neutral w (k w).0
      → Neutral w ((if b then m else k) w).0
  branch-Neutral true w m k n o = n
  branch-Neutral false w m k n o = o

  module _ (hash_api_key : Text → Text) (month_of : ℕ → Text) (now : ℕ) where
    pub ensure-Neutral :
        (u : UserRecord) (w : World cpa)
        → Neutral w (ensure_quota_month cpa hash_api_key month_of now u w).0
    unfolding ensure_quota_month
    ensure-Neutral u w =
        branch-Neutral (is_none u.monthly || text_eq u.month (month_of now)) w _ _ (Neutral-refl w)
          (Neutral-trans (update-Neutral w u.id _ (λ v. (refl, refl))) (get_user-Neutral u.id _))

    after_removal-Neutral :
        (id : ℕ) (go_on : World cpa → World cpa) (w : World cpa) (r : cpa.State × Option Text)
        → ((v : World cpa) → Neutral v (go_on v))
        → Neutral w (after_removal cpa hash_api_key month_of now id go_on w r)
    after_removal-Neutral id go_on w (s, none) k = Neutral-trans (remote-Neutral w s) (k _)
    after_removal-Neutral id go_on w (s, some e) k =
        Neutral-trans (remote-Neutral w s) (set_message-Neutral id e _)

    remove_keys-Neutral :
        (id : ℕ) (ks : List UserApiKey) (w : World cpa)
        → Neutral w (remove_keys cpa hash_api_key month_of now id ks w)
    unfolding remove_keys
    remove_keys-Neutral id [] w = Neutral-refl w
    remove_keys-Neutral id (k ∷ ks) w = after_removal-Neutral id _ w _ (remove_keys-Neutral id ks)

    pause_now-Neutral :
        (id : ℕ) (reason : Text) (w : World cpa)
        → Neutral w (pause_now cpa hash_api_key month_of now id reason w).0
    unfolding pause_now
    pause_now-Neutral id reason w =
        let row =
          update-Neutral w id (pause_row cpa hash_api_key month_of now reason)
            (λ v. (refl, refl)) in
        if-Neutral (in_proxy_mode w.config) w _ _ row
          (Neutral-trans row (remove_keys-Neutral id _ _))

    pub pause-Neutral :
        (id : ℕ) (reason : Text) (w : World cpa)
        → Neutral w (pause_user_keys_for_quota cpa hash_api_key month_of now id reason w).0
    unfolding pause_user_keys_for_quota
    pause-Neutral id reason w =
        bind-Neutral {B = Unit {0}} w (get_user cpa id w)
          (λ (u : UserRecord).
            if is_some u.paused_at && is_none u.sync_error
            then return tt
            else pause_now cpa hash_api_key month_of now id reason)
          (get_user-Neutral id w)
          (λ u v.
            branch-Neutral (is_some u.paused_at && is_none u.sync_error) v (return tt)
              (pause_now cpa hash_api_key month_of now id reason) (Neutral-refl v)
              (pause_now-Neutral id reason v))

    roll_back-Neutral :
        (hs : List Text) (w : World cpa) → Neutral w (roll_back cpa hash_api_key month_of now hs w)
    unfolding roll_back
    roll_back-Neutral [] w = Neutral-refl w
    roll_back-Neutral (h ∷ hs) w = Neutral-trans (remote-Neutral w _) (roll_back-Neutral hs _)

    restore_failed-Neutral :
        (id : ℕ) (hs : List Text) (e : Text) (w : World cpa)
        → Neutral w (restore_failed cpa hash_api_key month_of now id hs e w).0
    unfolding restore_failed
    restore_failed-Neutral id hs e w =
        Neutral-trans (roll_back-Neutral hs w) (set_message-Neutral id e _)

    unpause-Neutral :
        (id : ℕ) (w : World cpa) → Neutral w (unpause cpa hash_api_key month_of now id w).0
    unfolding unpause
    unpause-Neutral id w = update-Neutral w id _ (λ v. (refl, refl))

    after_add-Neutral :
        (id : ℕ) (go_on : List Text → World cpa → World cpa × Result (Unit {0})) (h : Text)
        (done : List Text) (w : World cpa) (r : cpa.State × Option Text)
        → ((d : List Text) (v : World cpa) → Neutral v (go_on d v).0)
        → Neutral w (after_add cpa hash_api_key month_of now id go_on h done w r).0
    after_add-Neutral id go_on h done w (s, none) k = Neutral-trans (remote-Neutral w s) (k _ _)
    after_add-Neutral id go_on h done w (s, some e) k =
        Neutral-trans (remote-Neutral w s) (restore_failed-Neutral id done e _)

    restore_keys-Neutral :
        (id : ℕ) (ks : List UserApiKey) (done : List Text) (w : World cpa)
        → Neutral w (restore_keys cpa hash_api_key month_of now id ks done w).0
    unfolding restore_keys
    restore_keys-Neutral id [] done w = unpause-Neutral id w
    restore_keys-Neutral id (k ∷ ks) done w =
        after_add-Neutral id (λ d. restore_keys cpa hash_api_key month_of now id ks d)
          k.api_key_hash done w _ (λ d v. restore_keys-Neutral id ks d v)

    restore_now-Neutral :
        (id : ℕ) (w : World cpa) → Neutral w (restore_now cpa hash_api_key month_of now id w).0
    unfolding restore_now
    restore_now-Neutral id w =
        if-Neutral (in_key_mode w.config) w _ _
          (if-Neutral (all_have_keys (keys_of id w.keys)) w _ _ (restore_keys-Neutral id _ [] w)
            (set_message-Neutral id cannot_restore w))
          (unpause-Neutral id w)

    pub restore-Neutral :
        (id : ℕ) (w : World cpa)
        → Neutral w (restore_quota_paused_user_if_available cpa hash_api_key month_of now id w).0
    unfolding restore_quota_paused_user_if_available
    restore-Neutral id w =
        let last : UserRecord → M cpa (Unit {0}) = (λ x.
          if is_none x.paused_at || is_some x.disabled_at || not (quota_has_available x)
          then return tt
          else restore_now cpa hash_api_key month_of now id) in
        bind-Neutral {B = Unit {0}} w (get_user cpa id w)
          (λ (u : UserRecord) v.
            proceed (ensure_quota_month cpa hash_api_key month_of now u v) last)
          (get_user-Neutral id w)
          (λ u v.
            bind-Neutral {B = Unit {0}} v (ensure_quota_month cpa hash_api_key month_of now u v)
              last (ensure-Neutral u v)
              (λ x y.
                branch-Neutral
                  (is_none x.paused_at || is_some x.disabled_at || not (quota_has_available x)) y
                  (return tt) (restore_now cpa hash_api_key month_of now id) (Neutral-refl y)
                  (restore_now-Neutral id y)))
