-- ===== src/ChannelStatus.antt =====
-- backend/internal/app/channel_status.go: the status that a pool of accounts shows, from its accounts
-- and from the last requests. Times are numbers, a missing one is none; an item's status is none
-- where the source has "". The fields of an account that start with `antigravity` are what
-- `keeperAntigravityAccount` and `keeperAntigravityQuotaUsedPercent` compute from its stored quotas.
pub mod Health
pub mod Requests
pub mod Recent
mod Tests
use cpa_helper_s.Prelude.{
  ℕ, suc, ◌+◌, ◌-◌, ◌*◌, ◌/◌, ◌≡◌, refl, Bool, true, false, not, ◌&&◌, ◌||◌, Option, none, some,
  List, [], ◌∷◌, ltb, leb, ◌==◌, if◌then◌else◌, length,
}
use cpa_helper_s.Prelude.Int.{ℤ, pos, negsuc}
use cpa_helper_s.Prelude.Text.{Text, is_empty, trim_space}

pub data Status : Type 0 where
  disabled error quota_exhausted normal degraded no_accounts : Status

pub record Account : Type 0 where
  pub is_disabled : Bool
  pub last_status_code : Option ℕ
  pub primary_used_percent : Option ℤ
  pub secondary_used_percent : Option ℤ
  pub antigravity_account : Bool
  pub antigravity_primary : Option ℤ
  pub antigravity_secondary : Option ℤ
  pub last_checked_at : Option ℕ
  pub last_healthy_at : Option ℕ

pub record RecentRequest : Type 0 where
  pub id : ℕ
  pub timestamp : Text
  pub failed : Bool

pub record Item : Type 0 where
  pub enabled : Bool
  pub status : Option Status
  pub available : Bool
  pub account_count : ℕ
  pub available_accounts : ℕ
  pub disabled_accounts : ℕ
  pub error_accounts : ℕ
  pub quota_exhausted_accounts : ℕ
  pub status_code : Option ℕ
  pub primary_remaining_percent : Option ℕ
  pub secondary_remaining_percent : Option ℕ
  pub last_checked_at : Option ℕ
  pub last_healthy_at : Option ℕ
  pub recent_requests : List RecentRequest

abbrev pub or_else {ℓ} : {A : Type ℓ} → Option A → Option A → Option A
or_else none b = b
or_else (some a) b = some a

unfoldable pub channel_account_used_percents : Account → Option ℤ × Option ℤ
channel_account_used_percents a =
    if a.antigravity_account
    then (
      or_else a.antigravity_primary a.primary_used_percent,
      or_else a.antigravity_secondary a.secondary_used_percent,
    )
    else (a.primary_used_percent, a.secondary_used_percent)

abbrev pub is_quota_exhausted_percent : Option ℤ → Bool
is_quota_exhausted_percent none = false
is_quota_exhausted_percent (some (negsuc n)) = false
is_quota_exhausted_percent (some (pos n)) = leb 100 n

abbrev pub is_error_code : Option ℕ → Bool
is_error_code none = false
is_error_code (some n) = leb 400 n

unfoldable pub channel_account_status : Account → Status × Bool
unfolding channel_account_used_percents
channel_account_status a =
    if a.is_disabled
    then (disabled, false)
    else if is_error_code a.last_status_code
    then (error, false)
    else (let used = channel_account_used_percents a in
        if is_quota_exhausted_percent used.0 || is_quota_exhausted_percent used.1
        then (quota_exhausted, false)
        else (normal, true))

abbrev pub remaining_percent_value : ℤ → ℕ
remaining_percent_value (negsuc n) = 100
remaining_percent_value (pos n) = 100 - n

pub record RemainingAccumulator : Type 0 where
  pub total : ℕ
  pub known : Bool

unfoldable pub add_used : RemainingAccumulator → Option ℤ → RemainingAccumulator
add_used r none = record r { total = r.total + 100 }
add_used r (some used) = record { total = r.total + remaining_percent_value used; known = true }

-- `int(float64(total)/float64(count) + 0.5)` rounds half up.
unfoldable pub percent : RemainingAccumulator → ℕ → Option ℕ
percent r count =
    if count == 0 || not r.known then none else some ((2 * r.total + count) / (2 * count))

abbrev pub max_time : Option ℕ → Option ℕ → Option ℕ
max_time current none = current
max_time none (some t) = some t
max_time (some c) (some t) = if ltb c t then some t else some c

abbrev pub max_code : Option ℕ → Option ℕ → Option ℕ
max_code current none = current
max_code none (some c) = some c
max_code (some d) (some c) = if ltb d c then some c else some d

-- The counters of the loop of `applyChannelAccountStats`.
unfoldable pub count_account : Item → Status × Bool → Item
count_account i (status, is_available) =
    let j =
      if is_available then record i { available_accounts = suc i.available_accounts } else i in
    elim status [
      | disabled ↦ record j { disabled_accounts = suc j.disabled_accounts }
      | error ↦ record j { error_accounts = suc j.error_accounts }
      | quota_exhausted ↦ record j { quota_exhausted_accounts = suc j.quota_exhausted_accounts }
      | normal ↦ j
      | degraded ↦ j
      | no_accounts ↦ j
    ]

pub record Totals : Type 0 where
  pub item : Item
  pub primary : RemainingAccumulator
  pub secondary : RemainingAccumulator

-- The body of the loop.
unfoldable pub add_account : Totals → Account → Totals
unfolding count_account channel_account_status channel_account_used_percents add_used
add_account t a =
    let i = count_account t.item (channel_account_status a) in
    let used = channel_account_used_percents a in
    record {
      item = record i {
        status_code = max_code i.status_code a.last_status_code;
        last_checked_at = max_time i.last_checked_at a.last_checked_at;
        last_healthy_at = max_time i.last_healthy_at a.last_healthy_at;
      };
      primary = add_used t.primary used.0;
      secondary = add_used t.secondary used.1;
    }

unfoldable pub add_accounts : Totals → List Account → Totals
unfolding add_account
add_accounts t [] = t
add_accounts t (a ∷ rest) = add_accounts (add_account t a) rest

unfoldable pub channel_pool_status : Item → Status × Bool
channel_pool_status i =
    if i.account_count == 0
    then (no_accounts, false)
    else if ltb 0 i.available_accounts
    then (if ltb 0 i.error_accounts then (degraded, true) else (normal, true))
    else if i.quota_exhausted_accounts == i.account_count
    then (quota_exhausted, false)
    else if i.disabled_accounts == i.account_count
    then (disabled, false)
    else (error, false)

abbrev pub no_totals : RemainingAccumulator
no_totals = record { total = 0; known = false }

-- The assignments before the loop.
abbrev pub start_stats : Item → List Account → Item
start_stats i accounts =
    let j = record i {
      account_count = length accounts;
      last_checked_at = none;
      last_healthy_at = none;
    } in
    if i.enabled then j else record j { status = some disabled; available = false }

abbrev pub set_pool_status : Item → Item
set_pool_status i =
    if (elim i.status [ none ↦ true | some s ↦ false ])
    then record i { status = some (channel_pool_status i).0; available = (channel_pool_status i).1 }
    else i

-- `lastChecked` and `lastHealthy` are kept in the item, which has them at the end.
unfoldable pub apply_channel_account_stats : Item → List Account → Item
unfolding add_accounts percent channel_pool_status
apply_channel_account_stats i accounts =
    let t =
      add_accounts
        (record { item = start_stats i accounts; primary = no_totals; secondary = no_totals })
        accounts in
    set_pool_status (record t.item {
      primary_remaining_percent = percent t.primary (length accounts);
      secondary_remaining_percent = percent t.secondary (length accounts);
    })

-- The requests that succeeded and that failed, without the blank places.
unfoldable pub count_requests : List RecentRequest → ℕ × ℕ
unfolding trim_space
count_requests [] = (0, 0)
count_requests (r ∷ rs) =
    let rest = count_requests rs in
    if is_empty (trim_space r.timestamp)
    then rest
    else if r.failed
    then (rest.0, suc rest.1)
    else (suc rest.0, rest.1)

abbrev pub healthy_percent : ℕ
healthy_percent = 90

abbrev pub set_status : Status → Bool → Item → Item
set_status s a i = record i { status = some s; available = a }

-- The end of `applyChannelRecentRequestStatus`.
unfoldable pub judge_requests : Item → ℕ × ℕ → Item
judge_requests i (successes, failures) =
    let records = successes + failures in
    if records == 0
    then i
    else if ltb successes failures
    then set_status error false i
    else if leb (records * healthy_percent) (successes * 100)
    then set_status normal true i
    else set_status degraded true i

unfoldable pub apply_channel_recent_request_status : Item → Item
unfolding judge_requests count_requests
apply_channel_recent_request_status i =
    if not i.enabled
    then set_status disabled false i
    else if not i.available || ltb 0 i.error_accounts
    then i
    else judge_requests i (count_requests i.recent_requests)
