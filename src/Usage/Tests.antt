-- ===== src/Usage/Tests.antt =====
-- Records of two users, a JSON text with a key, and the theorems at them.
use cpa_helper_s.Prelude.{
  ◌^◌, ◌+◌, ℕ, ◌≡◌, refl, Bool, true, false, none, some, List, [], ◌∷◌, All, ◌||◌,
}
use cpa_helper_s.Prelude.Int.{pos}
use cpa_helper_s.Prelude.Text.{Text, codes, ascii_lower, contains_text, text_eq, trim_space}
use cpa_helper_s.AuthPools.{AuthUser}
use cpa_helper_s.Pricing.{UsageRecord, PriceMap, manual, prices_by_key}
use cpa_helper_s.Security.{mask_secret}
use cpa_helper_s.Usage.Statistics.{Range, paged_usage_records}
use cpa_helper_s.Usage.Scope.{StoredRecord, UsageFilters, usage_records}
use cpa_helper_s.Usage.Scope.Own.{IsOf, usage_records-own}
use cpa_helper_s.Usage.Redaction.{
  Json, null, number, string, object, end, field, UsageRedactionOptions, redact_json,
}
use cpa_helper_s.Usage.Redaction.Hidden.{Hides, redact_json-Hides}

abbrev record_of : ℕ → Text → Bool → UsageRecord
record_of t name failed = record {
  id = t;
  timestamp = t;
  usage_username = some name;
  provider = some (codes "Codex");
  model = some (codes "gpt");
  failed = failed;
  input_tokens = pos 3;
  output_tokens = pos 4;
  cached_tokens = pos 0;
  cache_read_tokens = pos 0;
  cache_creation_tokens = pos 0;
  reasoning_tokens = pos 0;
  total_tokens = pos 7;
}

abbrev prices : PriceMap
prices = prices_by_key ascii_lower (
    record {
      id = 0;
      provider = codes "codex";
      model = codes "gpt";
      input_per_million = 1000000000000;
      output_per_million = 2000000000000;
      cache_read_per_million = 0;
      cache_creation_per_million = 0;
      request_price = none;
      source = manual;
      source_model = none;
      auto_synced = false;
    }
    ∷ [])

abbrev ann : Text
ann = codes "ann"

abbrev bob : Text
bob = codes "bob"

abbrev records : List UsageRecord
records = record_of 5000 bob false ∷ record_of 1 ann true ∷ record_of 5 bob false ∷ []

-- The name of an hour is its number.
abbrev hour_of : Bool → ℕ → Text
hour_of short t = t ∷ []

abbrev range : Range
range = record { start = some 0; end_time = some 86400 }

abbrev five : List ℕ
five = 1 ∷ 2 ∷ 3 ∷ 4 ∷ 5 ∷ []

second-page : paged_usage_records false five 2 2 ≡ 3 ∷ 4 ∷ []
unfolding paged_usage_records
second-page = refl

-- A page so far back that its offset wraps: the first one, or nothing.
wrapped-page : paged_usage_records false five (2 ^ 62 + 1) 2 ≡ 1 ∷ 2 ∷ []
unfolding paged_usage_records
wrapped-page = refl

wrapped-slice : paged_usage_records true five (2 ^ 62 + 1) 2 ≡ []
unfolding paged_usage_records
wrapped-slice = refl

abbrev stored_of : UsageRecord → StoredRecord
stored_of r = record {
  billed = r;
  api_key_description = none;
  endpoint = none;
  source = some (codes "sk-1");
  request_id = none;
  auth = none;
  auth_index = none;
}

abbrev stored : List StoredRecord
stored =
    stored_of (record_of 5000 bob false)
    ∷ stored_of (record_of 1 ann true)
    ∷ stored_of (record_of 5 bob false)
    ∷ []

-- Ann asks for Bob's records.
abbrev asks_for_bob : UsageFilters
asks_for_bob = record {
  scope = [];
  start = none;
  end_time = none;
  user_id = some (pos 2);
  usage_username = some bob;
  api_key_description = none;
  provider = none;
  model = none;
  source_key = none;
  endpoint = none;
  failed = none;
  request_id = none;
}

abbrev user_ann : AuthUser
user_ann = record { id = pos 1; username = ann; is_admin = false }

not_admin : (text_eq [] (codes "account") || true) ≡ true
unfolding text_eq
not_admin = refl

usage_records-own_example :
    All
      (IsOf ann)
      (usage_records contains_text (λ s. s) (λ id. none) 0 stored asks_for_bob user_ann 1 50).1
usage_records-own_example =
    usage_records-own contains_text (λ s. s) (λ id. none) 0 stored asks_for_bob user_ann 1 50
      not_admin

one_record :
    (usage_records contains_text (λ s. s) (λ id. none) 0 stored asks_for_bob user_ann 1 50).1
    ≡ stored_of (record_of 1 ann true) ∷ []
unfolding usage_records text_eq
one_record = refl

abbrev message : Json
message = object (
    field (codes "Api_Key") (string (codes "sk-1234567890")) (
      field (codes "model") (string (codes "gpt"))
        (field (codes "headers") (object (field (codes "Cookie") null end)) end)))

abbrev print : Json → Text
print (string s) = s
print (number n) = n
print v = codes "?"

abbrev own_account : UsageRedactionOptions
own_account = record { mask_source = true; mask_auth_index = true }

redact_json-Hides_example :
    Hides ascii_lower own_account print message
      (redact_json ascii_lower print own_account none message)
redact_json-Hides_example = redact_json-Hides ascii_lower own_account print none message

message_hidden :
    redact_json ascii_lower print own_account none message
    ≡ object (
        field (codes "Api_Key") (string (codes "sk-123...7890")) (
          field
            (codes "model")
            (string (codes "gpt"))
            (field (codes "headers") (object (field (codes "Cookie") null end)) end)))
unfolding redact_json text_eq ascii_lower contains_text mask_secret trim_space
message_hidden = refl
