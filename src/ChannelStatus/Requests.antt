-- ===== src/ChannelStatus/Requests.antt =====
-- What the last requests make of the status that a pool has from its accounts.
use cpa_helper_s.Prelude.{
  ℕ, suc, ◌*◌, ◌≤◌, ◌<◌, ◌≡◌, refl, ◌∙◌, Bool, true, false, not, ◌&&◌, ◌||◌, some, List, [], ◌∷◌,
  ltb, if◌then◌else◌, arith, Bool-cases, inl, inr,
}
use cpa_helper_s.Prelude.Text.{is_empty, trim_space}
use cpa_helper_s.ChannelStatus.{
  disabled, error, normal, degraded, Account, Item, apply_channel_account_stats, count_requests,
  set_status, RecentRequest, judge_requests, apply_channel_recent_request_status,
}
use cpa_helper_s.ChannelStatus.Health.{
  usable, IsBlank, apply_channel_account_stats-health, apply_channel_account_stats-enabled,
}

-- How many requests pass a test.
abbrev pub number_of : (RecentRequest → Bool) → List RecentRequest → ℕ
number_of test [] = 0
number_of test (r ∷ rs) = let rest = number_of test rs in if test r then suc rest else rest

-- The places of the ring that hold a request, and how the request ended.
abbrev pub has_failed : RecentRequest → Bool
has_failed r = not (is_empty (trim_space r.timestamp)) && r.failed

abbrev pub has_succeeded : RecentRequest → Bool
has_succeeded r = not (is_empty (trim_space r.timestamp)) && not r.failed

count_requests-eq :
    (rs : List RecentRequest)
    → count_requests rs ≡ (number_of has_succeeded rs, number_of has_failed rs)
unfolding count_requests
count_requests-eq [] = refl
count_requests-eq (r ∷ rs) = elim (Bool-cases (is_empty (trim_space r.timestamp))) [
  | inl e ↦ rw (e, count_requests-eq rs) refl
  | inr e ↦ elim (Bool-cases r.failed) [
    | inl f ↦ rw (e, f, count_requests-eq rs) refl
    | inr f ↦ rw (e, f, count_requests-eq rs) refl
  ]
]

-- The status and the availability that the counts of an item's requests give.
judged :
    (i : Item) (successes failures : ℕ)
    → let j =
        if not i.enabled
        then set_status disabled false i
        else if not i.available || ltb 0 i.error_accounts
        then i
        else judge_requests i (successes, failures) in
      (j.available
        ≡ (i.enabled && i.available && (ltb 0 i.error_accounts || not (ltb successes failures))))
      × (i.enabled ≡ false → j.status ≡ some disabled)
      × (i.enabled ≡ true
          → i.available ≡ true
          → i.error_accounts ≡ 0
          → (successes < failures → j.status ≡ some error)
            × (0 < successes → 9 * failures ≤ successes → j.status ≡ some normal)
            × (failures ≤ successes → successes < 9 * failures → j.status ≡ some degraded))
unfolding judge_requests
judged i successes failures = ground arith

and_again : (e u g : Bool) → (e && (e && u) && g) ≡ (e && u && g)
and_again e u g = ground arith

-- A pool that nothing was counted for, shown from its accounts and then from the places of its ring of
-- last requests: it is available exactly when it is enabled, one of its accounts is usable, and either
-- an account is in error or no more of the requests failed than succeeded. One that is not enabled
-- shows as disabled. Where it is enabled, an account is usable and none is in error, it shows as in
-- error where more requests failed than succeeded, as normal where some succeeded and at most one in
-- ten failed, and as degraded where more failed, but no more than succeeded.
pub apply_channel_recent_request_status-available :
    (i : Item) (accounts : List Account) (requests : List RecentRequest)
    → IsBlank i
    → let k = record (apply_channel_account_stats i accounts) { recent_requests = requests } in
      let j = apply_channel_recent_request_status k in
      let s = number_of has_succeeded requests in
      let f = number_of has_failed requests in
      (j.available
        ≡ (i.enabled && ltb 0 (usable accounts) && (ltb 0 k.error_accounts || not (ltb s f))))
      × (i.enabled ≡ false → j.status ≡ some disabled)
      × (i.enabled ≡ true
          → 0 < usable accounts
          → k.error_accounts ≡ 0
          → (s < f → j.status ≡ some error)
            × (0 < s → 9 * f ≤ s → j.status ≡ some normal)
            × (f ≤ s → s < 9 * f → j.status ≡ some degraded))
unfolding apply_channel_recent_request_status
apply_channel_recent_request_status-available i accounts requests b =
    let k : Item = record (apply_channel_account_stats i accounts) { recent_requests = requests } in
    let health = apply_channel_account_stats-health i accounts b in
    let enabled = apply_channel_account_stats-enabled i accounts in
    let law = judged k (number_of has_succeeded requests) (number_of has_failed requests) in
    rw (count_requests-eq requests) (
      law.0 ∙ rw (enabled, health.2) (and_again i.enabled (ltb 0 (usable accounts)) _),
      (λ off. law.1 (enabled ∙ off)),
      (λ on used clean. law.2 (enabled ∙ on) (health.2 ∙ rw on (ground (arith, used))) clean),
    )
