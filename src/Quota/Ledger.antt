-- ===== src/Quota/Ledger.antt =====
-- The ledger of lifetime balances over any number of charges.
use cpa_helper_s.Prelude.{ℕ, ◌+◌, ◌≡◌, refl, ◌∙◌, true, List, [], ◌∷◌, arith, Distinct, inl, inr}
use cpa_helper_s.Prelude.Text.{Text}
use cpa_helper_s.Pricing.{UsageRecord, PriceMap}
use cpa_helper_s.Quota.Remote.{Cpa}
use cpa_helper_s.Quota.World.{World, is_charged}
use cpa_helper_s.Quota.Charges.{apply_quota_charge}
use cpa_helper_s.Quota.Neutral.{user_ids, lifetime_left}
use cpa_helper_s.Quota.Charging.{Outcome, apply-Outcome}
use cpa_helper_s.Quota.Rows.{charged_to, charged_records, charged_to-append, append-Distinct}

module _ {cpa : Cpa} where
  -- No two users have one number, and no usage record is charged twice.
  pub record IsLedger (w : World cpa) : Type 0 where
    pub distinct_users : Distinct (user_ids w.users)
    pub distinct_records : Distinct (charged_records w.charges)

  abbrev pub total : ℕ → World cpa → ℕ
  total i w = lifetime_left i w.users + charged_to i w.charges

  outcome-total :
      (r : UsageRecord) (w v : World cpa) → Outcome r w v → (i : ℕ) → total i v ≡ total i w
  outcome-total r w v (inl n) i = rw (n.same_charges, n.same_lifetime i) refl
  outcome-total r w v (inr c) i =
      rw (c.charges, charged_to-append i w.charges c.charge) (omega (arith, c.paid i))

  outcome-IsLedger : (r : UsageRecord) (w v : World cpa) → Outcome r w v → IsLedger w → IsLedger v
  outcome-IsLedger r w v (inl n) l = record {
    distinct_users = rw n.same_ids l.distinct_users;
    distinct_records = rw n.same_charges l.distinct_records;
  }
  outcome-IsLedger r w v (inr c) l = record {
    distinct_users = rw c.same_ids l.distinct_users;
    distinct_records =
        rw c.charges
          (append-Distinct w.charges c.charge l.distinct_records (rw c.of_record c.fresh));
  }

  module _ (hash_api_key : Text → Text) (month_of : ℕ → Text) (lower : ℕ → ℕ) where
    -- Calls of `applyQuotaCharge`, each with the time and the price map it sees.
    unfoldable pub charge_all : List (ℕ × PriceMap × UsageRecord) → World cpa → World cpa
    unfolding apply_quota_charge
    charge_all [] w = w
    charge_all ((now, prices, r) ∷ rs) w =
        charge_all rs (apply_quota_charge cpa hash_api_key month_of now lower prices r w).0

    -- When no two users have one number and no record is charged twice, any number of charges keeps
    -- both so, and for each user the lifetime balance and what the charges took from it have the same
    -- sum as before: nothing is taken without a charge, and no charge takes without lowering.
    pub charge_all-IsLedger :
        (rs : List (ℕ × PriceMap × UsageRecord)) (w : World cpa)
        → IsLedger w
        → IsLedger (charge_all rs w) × ((i : ℕ) → total i (charge_all rs w) ≡ total i w)
    unfolding charge_all
    charge_all-IsLedger [] w l = (l, λ i. refl)
    charge_all-IsLedger ((now, prices, r) ∷ rs) w l =
        let o = apply-Outcome hash_api_key month_of now lower prices r w l.distinct_users in
        let rest = charge_all-IsLedger rs _ (outcome-IsLedger r w _ o l) in
        (rest.0, λ i. rest.1 i ∙ outcome-total r w _ o i)

    -- Where no two users have one number: a usage record that has a charge is not charged again, whatever prices and time say now: the
    -- charges stay as they are, and so does every lifetime balance.
    pub apply_quota_charge-again :
        (now : ℕ) (prices : PriceMap) (r : UsageRecord) (w : World cpa)
        → Distinct (user_ids w.users)
        → is_charged r.id w.charges ≡ true
        → let v = (apply_quota_charge cpa hash_api_key month_of now lower prices r w).0 in
          (v.charges ≡ w.charges) × ((i : ℕ) → lifetime_left i v.users ≡ lifetime_left i w.users)
    apply_quota_charge-again now prices r w d h =
        elim (apply-Outcome hash_api_key month_of now lower prices r w d) [
          | inl n ↦ (n.same_charges, n.same_lifetime)
          | inr c ↦ ground (arith, c.fresh, h)
        ]
