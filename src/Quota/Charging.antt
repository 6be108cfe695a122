-- ===== src/Quota/Charging.antt =====
-- What one call of `applyQuotaCharge` does to the lifetime balances and to the list of charges.
use cpa_helper_s.Prelude.{
  ℕ, ◌+◌, ◌≡◌, refl, sym, ap, ◌∙◌, Bool, false, not, ◌||◌, Option, none, some, [], ◌∷◌, ◌++◌, arith,
  ltb, ◌==◌, if◌then◌else◌, Distinct, Bool-cases, Option-cases, inl, inr, ◌⊎◌,
}
use cpa_helper_s.Prelude.Text.{Text, text_eq, is_empty, trim_space}
use cpa_helper_s.Pricing.{UsageRecord, PriceMap, record_cost}
use cpa_helper_s.Quota.{
  UserRecord, Charge, deduct, is_some, is_none, quota_has_available, quota_is_unlimited,
}
use cpa_helper_s.Quota.Remote.{Cpa}
use cpa_helper_s.Quota.World.{
  World, M, find_user, find_username, update_user, get_user, is_charged, proceed, ignore_error,
  exhausted_reason,
}
use cpa_helper_s.Quota.Operations.{ensure_quota_month, new_month}
use cpa_helper_s.Quota.Charges.{
  charged_row, charge_of, write_balances, charge_now, charge_user, charge_found, charge_named,
  apply_quota_charge,
}
use cpa_helper_s.Quota.Neutral.{
  user_ids, lifetime_left, Neutral, update-Neutral, Neutral-refl, Neutral-trans, pause-Neutral,
  restore-Neutral,
}
use cpa_helper_s.Quota.Deduction.{deduct_ledger}
use cpa_helper_s.Quota.Rows.{
  Current, SetsLifetime, find_user-id, find_username-find_user, find_user-lifetime_left,
  write-user_ids, write-others, write-own,
}

-- What one call of `applyQuotaCharge` may do to balances and charges: nothing, or a first charge of
-- the record whose user pays what the charge says.
pub record Charged {cpa : Cpa} (r : UsageRecord) (w v : World cpa) : Type 0 where
  pub charge : Charge
  pub fresh : is_charged r.id w.charges ≡ false
  pub of_record : charge.usage_record_id ≡ r.id
  pub charges : v.charges ≡ w.charges ++ charge ∷ []
  pub same_ids : user_ids v.users ≡ user_ids w.users
  pub paid :
      (i : ℕ)
      → lifetime_left i v.users + (if charge.user_id == i then charge.lifetime_deducted else 0)
        ≡ lifetime_left i w.users

abbrev pub Outcome : {cpa : Cpa} → UsageRecord → World cpa → World cpa → Type 0
Outcome r w v = Neutral w v ⊎ Charged r w v

module _ {cpa : Cpa} where
  before-Outcome :
      {r : UsageRecord} {w v u : World cpa} → Neutral w v → Outcome r v u → Outcome r w u
  before-Outcome a (inl b) = inl (Neutral-trans a b)
  before-Outcome {r = r} {w = w} {v = v} {u = u} a (inr b) = inr record {
    charge = b.charge;
    fresh = rw (sym a.same_charges) b.fresh;
    of_record = b.of_record;
    charges = rw (sym a.same_charges) b.charges;
    same_ids = b.same_ids ∙ a.same_ids;
    paid = λ i. b.paid i ∙ a.same_lifetime i;
  }

  after-Outcome :
      {r : UsageRecord} {w v u : World cpa} → Charged r w v → Neutral v u → Charged r w u
  after-Outcome a b = record {
    charge = a.charge;
    fresh = a.fresh;
    of_record = a.of_record;
    charges = b.same_charges ∙ a.charges;
    same_ids = b.same_ids ∙ a.same_ids;
    paid = λ i. rw (b.same_lifetime i) (a.paid i);
  }

  ignore_error-Neutral :
      {A : Type 0} (m : M cpa A) (w : World cpa)
      → Neutral w (m w).0
      → Neutral w (ignore_error m w).0
  ignore_error-Neutral m w n = n

  module _ (hash_api_key : Text → Text) (month_of : ℕ → Text) (now : ℕ) where
    -- The transaction: the row of the user and the new charge.
    unfoldable written : UserRecord → UsageRecord → ℕ × Bool → World cpa → World cpa
    written u r (amount, unpriced) w =
        let d = deduct u amount unpriced in
        record w {
          users =
              update_user u.id
                (write_balances cpa hash_api_key month_of now
                  (charged_row cpa hash_api_key month_of now u d unpriced))
                w.users;
          charges = w.charges ++ charge_of cpa hash_api_key month_of now u r amount d unpriced ∷ [];
        }

    written-Charged :
        (u : UserRecord) (r : UsageRecord) (cost : ℕ × Bool) (w : World cpa)
        → is_charged r.id w.charges ≡ false
        → Current u w.users
        → Charged r w (written u r cost w)
    unfolding written
    written-Charged u r (amount, unpriced) w h (x, e, l) =
        let d = deduct u amount unpriced in
        let f =
          write_balances cpa hash_api_key month_of now
            (charged_row cpa hash_api_key month_of now u d unpriced) in
        let s : SetsLifetime d.lifetime f = record { same_id = λ u. refl; lifetime = λ u. refl } in
        record {
          charge = charge_of cpa hash_api_key month_of now u r amount d unpriced;
          fresh = h;
          of_record = refl;
          charges = refl;
          same_ids = write-user_ids u.id d.lifetime f s w.users;
          paid = λ i. ground (
            arith,
            deduct_ledger u amount unpriced,
            write-others u.id d.lifetime f s i w.users,
            write-own u.id d.lifetime f s w.users x e,
            find_user-lifetime_left u.id w.users x e,
          );
        }

    charge_now-Charged :
        (u : UserRecord) (r : UsageRecord) (cost : ℕ × Bool) (w : World cpa)
        → is_charged r.id w.charges ≡ false
        → Current u w.users
        → Charged r w (charge_now cpa hash_api_key month_of now u r cost w).0
    unfolding charge_now written
    charge_now-Charged u r (amount, unpriced) w h c =
        let a = written-Charged u r (amount, unpriced) w h c in
        let d = deduct u amount unpriced in
        elim (Bool-cases (
          ltb 0 d.remaining
          || not (quota_has_available (charged_row cpa hash_api_key month_of now u d unpriced)))) [
            | inl e ↦
                rw e (
                  after-Outcome a (pause-Neutral hash_api_key month_of now u.id exhausted_reason _))
            | inr e ↦ rw e a
          ]

    found-Outcome :
        {r : UsageRecord} (i : ℕ) (w : World cpa) (k : UserRecord → M cpa (Unit {0}))
        → ((x : UserRecord) → Current x w.users → Outcome r w (k x w).0)
        → Outcome r w (proceed (get_user cpa i w) k).0
    unfolding get_user
    found-Outcome i w k f = elim (Option-cases (find_user i w.users)) [
      | inl e ↦ rw e (inl (Neutral-refl w))
      | inr (x, e) ↦
          rw e (f x (x, ap (λ j. find_user j w.users) (find_user-id i w.users x e) ∙ e, refl))
    ]

    -- The row that `ensureQuotaMonth` returns is the stored one.
    ensure-Outcome :
        {r : UsageRecord} (u : UserRecord) (w : World cpa) (k : UserRecord → M cpa (Unit {0}))
        → find_user u.id w.users ≡ some u
        → ((x : UserRecord) (v : World cpa) → Current x v.users → Outcome r v (k x v).0)
        → Outcome r w (proceed (ensure_quota_month cpa hash_api_key month_of now u w) k).0
    unfolding ensure_quota_month
    ensure-Outcome u w k h f =
        elim (Bool-cases (is_none u.monthly || text_eq u.month (month_of now))) [
          | inl e ↦ rw e (f u w (u, h, refl))
          | inr e ↦ rw e (
              before-Outcome
                (update-Neutral w u.id (new_month cpa hash_api_key month_of now)
                  (λ v. (refl, refl)))
                (found-Outcome u.id _ k (λ x c. f x _ c)))
        ]

    charge_user-Outcome :
        (lower : ℕ → ℕ) (prices : PriceMap) (r : UsageRecord) (u : UserRecord) (w : World cpa)
        → find_user u.id w.users ≡ some u
        → Outcome r w (charge_user cpa hash_api_key month_of now lower prices r u w).0
    unfolding charge_user
    charge_user-Outcome lower prices r u w h = ensure-Outcome u w _ h (λ (x : UserRecord) v c.
        elim (Bool-cases (quota_is_unlimited x)) [
          | inl e ↦ rw e (elim (Bool-cases (is_some x.paused_at)) [
            | inl f ↦ rw f (inl (restore-Neutral hash_api_key month_of now x.id v))
            | inr f ↦ rw f (inl (Neutral-refl v))
          ])
          | inr e ↦ rw e (elim (Bool-cases (is_charged r.id v.charges)) [
            | inl f ↦ rw f (inl (Neutral-refl v))
            | inr f ↦ rw f (inr (charge_now-Charged x r (record_cost lower r prices) v f c))
          ])
        ])

    charge_found-Outcome :
        (lower : ℕ → ℕ) (prices : PriceMap) (r : UsageRecord) (w : World cpa) (name : Text)
        → Distinct (user_ids w.users)
        → Outcome r w
            (charge_found cpa hash_api_key month_of now lower prices r
              (find_username name w.users)
              w).0
    charge_found-Outcome lower prices r w name d =
        elim (Option-cases (find_username name w.users)) [
          | inl e ↦ rw e (inl (Neutral-refl w))
          | inr (u, e) ↦
              rw e (
                charge_user-Outcome lower prices r u w (find_username-find_user name w.users u d e))
        ]

    charge_named-Outcome :
        (lower : ℕ → ℕ) (prices : PriceMap) (r : UsageRecord) (name : Option Text) (w : World cpa)
        → Distinct (user_ids w.users)
        → Outcome r w (charge_named cpa hash_api_key month_of now lower prices r name w).0
    charge_named-Outcome lower prices r none w d = inl (Neutral-refl w)
    charge_named-Outcome lower prices r (some name) w d =
        elim (Bool-cases (is_empty (trim_space name))) [
          | inl e ↦ rw e (inl (Neutral-refl w))
          | inr e ↦ rw e (charge_found-Outcome lower prices r w name d)
        ]

    pub apply-Outcome :
        (lower : ℕ → ℕ) (prices : PriceMap) (r : UsageRecord) (w : World cpa)
        → Distinct (user_ids w.users)
        → Outcome r w (apply_quota_charge cpa hash_api_key month_of now lower prices r w).0
    unfolding apply_quota_charge
    apply-Outcome lower prices r w d = charge_named-Outcome lower prices r r.usage_username w d
