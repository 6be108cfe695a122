-- ===== src/Usage/Scope.antt =====
-- backend/internal/app/usage.go: whose records a user is shown. `like` is SQLite's LIKE between two
-- wildcards, and `source_hash` the SHA-256 of a source in hexadecimal. Times are in seconds.
pub mod Own
use cpa_helper_s.Prelude.{
  ℕ, ◌+◌, ◌*◌, Bool, true, false, not, ◌&&◌, ◌||◌, Option, none, some, List, [], ◌∷◌, ltb, leb,
  if◌then◌else◌, length,
}
use cpa_helper_s.Prelude.Int.{ℤ}
use cpa_helper_s.Prelude.Text.{Text, codes, text_eq, is_empty, trim_space}
use cpa_helper_s.Errors.{Result, ok, err, not_found}
use cpa_helper_s.AuthPools.{AuthUser}
use cpa_helper_s.Pricing.{UsageRecord}
use cpa_helper_s.Usage.Statistics.{paged_usage_records}

-- A `UsageRecord` with the fields that the filters read beside those that billing reads.
pub record StoredRecord : Type 0 where
  pub billed : UsageRecord
  pub api_key_description : Option Text
  pub endpoint : Option Text
  pub source : Option Text
  pub request_id : Option Text
  pub auth : Option Text
  pub auth_index : Option Text

pub record UsageFilters : Type 0 where
  pub scope : Text
  pub start : Option ℕ
  pub end_time : Option ℕ
  pub user_id : Option ℤ
  pub usage_username : Option Text
  pub api_key_description : Option Text
  pub provider : Option Text
  pub model : Option Text
  pub source_key : Option Text
  pub endpoint : Option Text
  pub failed : Option Bool
  pub request_id : Option Text

pub record UsageAccessScope : Type 0 where
  pub user_id : ℤ
  pub username : Text
  pub is_admin : Bool

abbrev pub or_default {ℓ} : {A : Type ℓ} → Option A → A → Option A
or_default none d = some d
or_default (some a) d = some a

-- Of a day that starts at `today`.
unfoldable pub normalized_usage_filters : ℕ → UsageFilters → UsageFilters
normalized_usage_filters today f = record f {
  start = or_default f.start today;
  end_time = or_default f.end_time (today + 24 * 3600);
}

unfoldable pub access_scope : AuthUser → Text → UsageAccessScope
access_scope user requested =
    let account_scoped = text_eq requested (codes "account") || not user.is_admin in
    record { user_id = user.id; username = user.username; is_admin = not account_scoped }

-- `user_name` is `getUser`, by the name it finds.
abbrev pub named : (ℤ → Option Text) → Option ℤ → Option Text → Option Text
named user_name (some id) none = user_name id
named user_name _ name = name

unfoldable pub scoped_filters : (ℤ → Option Text) → UsageFilters → UsageAccessScope → UsageFilters
scoped_filters user_name f scope =
    if not scope.is_admin
    then record f {
      usage_username = some scope.username;
      user_id = some scope.user_id;
      source_key = none;
    }
    else record f { usage_username = named user_name f.user_id f.usage_username }

-- The conditions of `usageWhere`; a column that is NULL meets none.
abbrev pub same_text : Option Text → Option Text → Bool
same_text none column = true
same_text (some wanted) none = false
same_text (some wanted) (some t) = text_eq t wanted

abbrev pub same_flag : Option Bool → Bool → Bool
same_flag none b = true
same_flag (some true) b = b
same_flag (some false) b = not b

abbrev pub not_before_start : Option ℕ → ℕ → Bool
not_before_start none t = true
not_before_start (some s) t = leb s t

abbrev pub before_end : Option ℕ → ℕ → Bool
before_end none t = true
before_end (some e) t = ltb t e

abbrev pub has_like : (Text → Text → Bool) → Option Text → Option Text → Bool
has_like like none column = true
has_like like (some wanted) none = false
has_like like (some wanted) (some t) = like t wanted

abbrev pub hashed : (Text → Text) → Text → Option Text
hashed source_hash s = if is_empty s then none else some (source_hash s)

unfoldable pub usage_source_key : (Text → Text) → Option Text → Option Text
usage_source_key source_hash none = none
usage_source_key source_hash (some s) = hashed source_hash (trim_space s)

module _ (like : Text → Text → Bool) (source_hash : Text → Text) where
  unfoldable pub usage_where : UsageFilters → StoredRecord → Bool
  usage_where f r =
      not_before_start f.start r.billed.timestamp
      && before_end f.end_time r.billed.timestamp
      && same_text f.usage_username r.billed.usage_username
      && same_text f.api_key_description r.api_key_description
      && same_text f.provider r.billed.provider
      && same_text f.model r.billed.model
      && same_text f.endpoint r.endpoint
      && same_flag f.failed r.billed.failed
      && has_like like f.request_id r.request_id

  abbrev pub selected : UsageFilters → List StoredRecord → List StoredRecord
  selected f [] = []
  selected f (r ∷ rs) = if usage_where f r then r ∷ selected f rs else selected f rs

  abbrev pub with_source : Text → List StoredRecord → List StoredRecord
  with_source wanted [] = []
  with_source wanted (r ∷ rs) =
      let rest = with_source wanted rs in
      if same_text (some wanted) (usage_source_key source_hash r.source) then r ∷ rest else rest

  abbrev pub from_source : Option Text → List StoredRecord → List StoredRecord
  from_source none rs = rs
  from_source (some wanted) rs = with_source wanted rs

  unfoldable pub apply_usage_post_filters : List StoredRecord → UsageFilters → List StoredRecord
  unfolding usage_source_key
  apply_usage_post_filters rs f = from_source f.source_key rs

  unfoldable pub has_usage_post_filters : UsageFilters → Bool
  has_usage_post_filters f = elim f.source_key [ none ↦ false | some wanted ↦ true ]

  -- The stored records come in the order that the statement asks for.
  unfoldable pub filtered_usage_records : UsageFilters → List StoredRecord → List StoredRecord
  unfolding usage_where apply_usage_post_filters
  filtered_usage_records f stored = apply_usage_post_filters (selected f stored) f

  unfoldable pub count_usage_records : UsageFilters → List StoredRecord → ℕ
  unfolding filtered_usage_records
  count_usage_records f stored = length (filtered_usage_records f stored)

  abbrev pub largest_page : ℕ → ℕ
  largest_page n = if ltb 200 n then 200 else n

  -- The total and the page of `usageRecords`, before the records are rendered.
  unfoldable pub usage_records :
      (ℤ → Option Text)
      → ℕ
      → List StoredRecord
      → UsageFilters
      → AuthUser
      → ℕ
      → ℕ
      → ℕ × List StoredRecord
  unfolding normalized_usage_filters access_scope scoped_filters count_usage_records
      paged_usage_records has_usage_post_filters
  usage_records user_name today stored f user page page_size =
      let scoped =
        scoped_filters user_name (normalized_usage_filters today f) (access_scope user f.scope) in
      (
        count_usage_records scoped stored,
        paged_usage_records (has_usage_post_filters scoped) (filtered_usage_records scoped stored)
            page (largest_page page_size),
      )

abbrev pub is_own : UsageAccessScope → StoredRecord → Bool
is_own scope r = scope.is_admin || same_text (some scope.username) r.billed.usage_username

abbrev pub found_record : UsageAccessScope → Option StoredRecord → Result StoredRecord
found_record scope none = err not_found
found_record scope (some r) = if is_own scope r then ok r else err not_found

-- The record of `usageRecordDetail`, of the one that has the number asked for.
unfoldable pub usage_record_detail : Option StoredRecord → AuthUser → Text → Result StoredRecord
unfolding access_scope
usage_record_detail found user requested = found_record (access_scope user requested) found
