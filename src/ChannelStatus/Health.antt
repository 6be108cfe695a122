-- ===== src/ChannelStatus/Health.antt =====
-- When a pool is available, and what its counters and percentages add up to.
use cpa_helper_s.Prelude.{
  ℕ, suc, ◌+◌, ◌*◌, ◌/◌, ◌≤◌, ◌<◌, ◌≡◌, refl, sym, ◌∙◌, ap, Bool, true, false, ◌&&◌, Option, none,
  some, List, [], ◌∷◌, ltb, if◌then◌else◌, length, arith, Bool-cases, inl, inr,
}
use native.Mathlib.Nat.{div-lt_iff_lt-mul}
use cpa_helper_s.Prelude.Int.{ℤ, pos, negsuc}
use cpa_helper_s.ChannelStatus.{
  disabled, Account, Item, RemainingAccumulator, Totals, count_account, channel_account_status,
  channel_account_used_percents, add_used, add_account, add_accounts, percent, channel_pool_status,
  start_stats, set_pool_status, apply_channel_account_stats, no_totals,
}

-- The accounts that the counters have seen.
abbrev pub counted : Item → ℕ
counted i =
    i.available_accounts + i.disabled_accounts + i.error_accounts + i.quota_exhausted_accounts

abbrev pub is_usable : Account → Bool
is_usable a = (channel_account_status a).1

abbrev pub usable : List Account → ℕ
usable [] = 0
usable (a ∷ rest) = (if is_usable a then 1 else 0) + usable rest

count_account-counted :
    (i : Item) (a : Account)
    → counted (count_account i (channel_account_status a)) ≡ suc (counted i)
unfolding count_account channel_account_status
count_account-counted i a = ground arith

count_account-usable :
    (i : Item) (a : Account)
    → (count_account i (channel_account_status a)).available_accounts
      ≡ i.available_accounts + (if is_usable a then 1 else 0)
unfolding count_account channel_account_status
count_account-usable i a = ground arith

-- What the loop over the accounts leaves alone.
record SameFrame (i j : Item) : Type 0 where
  enabled : j.enabled ≡ i.enabled
  status : j.status ≡ i.status
  available : j.available ≡ i.available
  account_count : j.account_count ≡ i.account_count

count_account-SameFrame :
    (i : Item) (a : Account) → SameFrame i (count_account i (channel_account_status a))
unfolding count_account channel_account_status
count_account-SameFrame i a = record {
  enabled = ground arith;
  status = ground arith;
  available = ground arith;
  account_count = ground arith;
}

record LoopResult (t : Totals) (accounts : List Account) (v : Totals) : Type 0 where
  frame : SameFrame t.item v.item
  all_counted : counted v.item ≡ counted t.item + length accounts
  all_usable : v.item.available_accounts ≡ t.item.available_accounts + usable accounts
  primary : v.primary.total ≤ t.primary.total + 100 * length accounts
  secondary : v.secondary.total ≤ t.secondary.total + 100 * length accounts

add_used-le : (r : RemainingAccumulator) (u : Option ℤ) → (add_used r u).total ≤ r.total + 100
unfolding add_used
add_used-le r none = omega arith
add_used-le r (some (pos n)) = omega arith
add_used-le r (some (negsuc n)) = omega arith

add_accounts_lem :
    (t : Totals) (accounts : List Account) → LoopResult t accounts (add_accounts t accounts)
unfolding add_accounts add_account
add_accounts_lem t [] = record {
  frame = record { enabled = refl; status = refl; available = refl; account_count = refl };
  all_counted = omega arith;
  all_usable = omega arith;
  primary = omega arith;
  secondary = omega arith;
}
add_accounts_lem t (a ∷ rest) =
    let l = add_accounts_lem (add_account t a) rest in
    let f = count_account-SameFrame t.item a in
    record {
      frame = record {
        enabled = l.frame.enabled ∙ f.enabled;
        status = l.frame.status ∙ f.status;
        available = l.frame.available ∙ f.available;
        account_count = l.frame.account_count ∙ f.account_count;
      };
      all_counted = omega (arith, l.all_counted, count_account-counted t.item a);
      all_usable = ground (arith, l.all_usable, count_account-usable t.item a);
      primary = omega (arith, l.primary, add_used-le t.primary (channel_account_used_percents a).0);
      secondary =
          omega (arith, l.secondary, add_used-le t.secondary (channel_account_used_percents a).1);
    }

rounded-le : (t n : ℕ) → 0 < n → t ≤ 100 * n → (2 * t + n) / (2 * n) ≤ 100
rounded-le t n k h =
    let positive : 0 < 2 * n = omega (arith, k) in
    let small : 2 * t + n < 101 * (2 * n) = omega (arith, k, h) in
    omega (arith, (div-lt_iff_lt-mul positive).1 small)

percent-le :
    (r : RemainingAccumulator) (n p : ℕ) → r.total ≤ 100 * n → percent r n ≡ some p → p ≤ 100
unfolding percent
percent-le r n p h e = ground (arith, h, e, rounded-le r.total n)

-- Before the accounts are read: no status yet, nothing counted.
abbrev pub IsBlank : Item → Type 0
IsBlank i =
    (i.status ≡ none)
    × (i.available_accounts ≡ 0)
    × (i.disabled_accounts ≡ 0)
    × (i.error_accounts ≡ 0)
    × (i.quota_exhausted_accounts ≡ 0)

-- What the decision at the end leaves alone, and when it says that the pool is available.
set_pool_status-frame :
    (i : Item)
    → (counted (set_pool_status i) ≡ counted i)
      × ((set_pool_status i).account_count ≡ i.account_count)
      × ((set_pool_status i).available_accounts ≡ i.available_accounts)
      × ((set_pool_status i).primary_remaining_percent ≡ i.primary_remaining_percent)
      × ((set_pool_status i).secondary_remaining_percent ≡ i.secondary_remaining_percent)
set_pool_status-frame i = ground arith

set_pool_status-available :
    (i : Item)
    → i.available_accounts ≤ i.account_count
    → (i.status ≡ none → (set_pool_status i).available ≡ ltb 0 i.available_accounts)
      × (i.status ≡ some disabled
          → ((set_pool_status i).available ≡ i.available)
            × ((set_pool_status i).status ≡ some disabled))
unfolding channel_pool_status
set_pool_status-available i h = ground arith

start_stats_lem :
    (i : Item) (accounts : List Account)
    → IsBlank i
    → let j = start_stats i accounts in
      (counted j ≡ 0)
      × (j.available_accounts ≡ 0)
      × (j.account_count ≡ length accounts)
      × (i.enabled ≡ true → j.status ≡ none)
      × (i.enabled ≡ false → (j.status ≡ some disabled) × (j.available ≡ false))
start_stats_lem i accounts b = ground (arith, b)

-- The item of a pool that nothing was counted for counts each of its accounts once, as available,
-- disabled, in error or out of quota. The pool is available exactly when it is enabled and one of its
-- accounts is usable; one that is not enabled shows as disabled. No remaining share exceeds 100.
pub apply_channel_account_stats-health :
    (i : Item) (accounts : List Account)
    → IsBlank i
    → let j = apply_channel_account_stats i accounts in
      (counted j ≡ length accounts)
      × (j.available_accounts ≡ usable accounts)
      × (j.available ≡ (i.enabled && ltb 0 (usable accounts)))
      × (i.enabled ≡ false → j.status ≡ some disabled)
      × ((p : ℕ) → j.primary_remaining_percent ≡ some p → p ≤ 100)
      × ((p : ℕ) → j.secondary_remaining_percent ≡ some p → p ≤ 100)
unfolding apply_channel_account_stats
apply_channel_account_stats-health i accounts b =
    let s = start_stats_lem i accounts b in
    let start : Totals = record {
      item = start_stats i accounts;
      primary = no_totals;
      secondary = no_totals;
    } in
    let t = add_accounts start accounts in
    let l = add_accounts_lem start accounts in
    let n = length accounts in
    let k : Item = record t.item {
      primary_remaining_percent = percent t.primary n;
      secondary_remaining_percent = percent t.secondary n;
    } in
    let f = set_pool_status-frame k in
    let bound : k.available_accounts ≤ k.account_count =
      omega (arith, l.all_counted, l.frame.account_count, s) in
    let a = set_pool_status-available k bound in
    let all : t.item.available_accounts ≡ usable accounts = omega (arith, l.all_usable, s) in
    let off = (λ (e : i.enabled ≡ false). a.1 (l.frame.status ∙ (s.4 e).0)) in
    (
      f.0 ∙ omega (arith, l.all_counted, s),
      f.2 ∙ all,
      elim (Bool-cases i.enabled) [
        | inl e ↦
            a.0 (l.frame.status ∙ s.3 e)
            ∙ ap (ltb 0) all
            ∙ sym (ap (λ x. x && ltb 0 (usable accounts)) e)
        | inr e ↦
            (off e).0
            ∙ l.frame.available
            ∙ (s.4 e).1
            ∙ sym (ap (λ x. x && ltb 0 (usable accounts)) e)
      ],
      (λ e. (off e).1),
      (λ p e. percent-le t.primary n p (omega (arith, l.primary)) (sym f.3 ∙ e)),
      (λ p e. percent-le t.secondary n p (omega (arith, l.secondary)) (sym f.4 ∙ e)),
    )

set_pool_status-enabled : (i : Item) → (set_pool_status i).enabled ≡ i.enabled
set_pool_status-enabled i = ground arith

start_stats-enabled :
    (i : Item) (accounts : List Account) → (start_stats i accounts).enabled ≡ i.enabled
start_stats-enabled i accounts = ground arith

pub apply_channel_account_stats-enabled :
    (i : Item) (accounts : List Account)
    → (apply_channel_account_stats i accounts).enabled ≡ i.enabled
unfolding apply_channel_account_stats
apply_channel_account_stats-enabled i accounts =
    let start : Totals = record {
      item = start_stats i accounts;
      primary = no_totals;
      secondary = no_totals;
    } in
    let t = add_accounts start accounts in
    let k : Item = record t.item {
      primary_remaining_percent = percent t.primary (length accounts);
      secondary_remaining_percent = percent t.secondary (length accounts);
    } in
    set_pool_status-enabled k
    ∙ (add_accounts_lem start accounts).frame.enabled
    ∙ start_stats-enabled i accounts
