-- ===== src/HeaderTimeout.antt =====
-- backend/internal/app/model_proxy_cpa_config.go: how long the model proxy waits for the header of a
-- response, from the keep-alive settings of the CPA service, which are cached for each URL. Durations
-- are in seconds, a time is a number of seconds. What the service answers is a parameter.
pub mod Bounds
pub mod Cache
mod Tests
use cpa_helper_s.Prelude.{
  map, ℕ, suc, ◌+◌, ◌-◌, ◌*◌, ◌≡◌, refl, Bool, true, false, not, ◌&&◌, ◌||◌, Option, none, some,
  List, [], ◌∷◌, ltb, leb, ◌==◌, if◌then◌else◌,
}
use cpa_helper_s.Prelude.Int.{ℤ, pos, negsuc}
use cpa_helper_s.Prelude.Text.{Text, text_eq, is_empty, trim_space}

abbrev pub default_response_header_timeout : ℕ
default_response_header_timeout = 30

abbrev pub response_header_safety_margin : ℕ
response_header_safety_margin = 30

abbrev pub bootstrap_retry_margin : ℕ
bootstrap_retry_margin = 5

abbrev pub cpa_config_ttl : ℕ
cpa_config_ttl = 60

abbrev pub cpa_config_fallback_ttl : ℕ
cpa_config_fallback_ttl = 15

abbrev pub max_keepalive_seconds : ℕ
max_keepalive_seconds = 3600

abbrev pub max_bootstrap_retries : ℕ
max_bootstrap_retries = 12

pub record CpaConfig : Type 0 where
  pub keepalive_seconds : ℤ
  pub bootstrap_retries : ℤ
  pub nonstream_keepalive_interval : ℤ

abbrev pub empty_config : CpaConfig
empty_config = record {
  keepalive_seconds = pos 0;
  bootstrap_retries = pos 0;
  nonstream_keepalive_interval = pos 0;
}

pub record CacheEntry : Type 0 where
  pub config : CpaConfig
  pub synced : Bool
  pub expires_at : ℕ

-- The fields of `AuthPoolProxyTargetConfig` that are read here.
pub record Target : Type 0 where
  pub cpa_url : Text
  pub management_key : Text

-- `maxPositiveInt` of two values.
abbrev pub positive_part : ℤ → ℕ
positive_part (pos n) = n
positive_part (negsuc n) = 0

unfoldable pub max_positive_int : ℤ → ℤ → ℕ
max_positive_int a b =
    if ltb (positive_part a) (positive_part b) then positive_part b else positive_part a

-- `minPositiveInt`, of a value that is not negative.
unfoldable pub min_positive_int : ℕ → ℕ → ℕ
min_positive_int value maximum =
    if value == 0 then 0 else if ltb maximum value then maximum else value

unfoldable pub bounded_retries : ℤ → ℕ
bounded_retries (negsuc n) = 0
bounded_retries (pos n) = if ltb max_bootstrap_retries n then max_bootstrap_retries else n

-- `effectiveModelProxyResponseHeaderTimeout`.
unfoldable pub effective_response_header_timeout : CpaConfig → ℕ
unfolding max_positive_int min_positive_int bounded_retries
effective_response_header_timeout c =
    let keepalive =
      min_positive_int (max_positive_int c.keepalive_seconds c.nonstream_keepalive_interval)
        max_keepalive_seconds in
    let longest =
      if ltb default_response_header_timeout keepalive
      then keepalive
      else default_response_header_timeout in
    let timeout =
      if ltb 0 keepalive
      then longest + response_header_safety_margin
      else default_response_header_timeout in
    timeout + bounded_retries c.bootstrap_retries * bootstrap_retry_margin

-- `strings.TrimRight(s, "/")`.
abbrev pub keep_unslashed : ℕ → Text → Text
keep_unslashed c [] = if c == b'/' then [] else c ∷ []
keep_unslashed c (d ∷ ds) = c ∷ d ∷ ds

unfoldable pub trim_slashes : Text → Text
trim_slashes [] = []
trim_slashes (c ∷ cs) = keep_unslashed c (trim_slashes cs)

-- `modelProxyCPAConfigCache`.
abbrev pub Cache : Type 0
Cache = List (Text × CacheEntry)

abbrev pub find_entry : Text → Cache → Option CacheEntry
find_entry key [] = none
find_entry key ((k, e) ∷ es) = if text_eq k key then some e else find_entry key es

abbrev pub put_entry : Text → CacheEntry → Cache → Cache
put_entry key e [] = (key, e) ∷ []
put_entry key e ((k, f) ∷ es) = if text_eq k key then (key, e) ∷ es else (k, f) ∷ put_entry key e es

abbrev pub is_fresh : ℕ → Option CacheEntry → Bool
is_fresh now none = false
is_fresh now (some e) = ltb now e.expires_at

-- The new entry from the answer, where an error keeps a configuration that was read before.
abbrev pub entry_of : ℕ → Option CacheEntry → Option CpaConfig → CacheEntry
entry_of now previous (some c) = record {
  config = c;
  synced = true;
  expires_at = now + cpa_config_ttl;
}
entry_of now none none = record {
  config = empty_config;
  synced = false;
  expires_at = now + cpa_config_fallback_ttl;
}
entry_of now (some e) none = record {
  config = (if e.synced then e.config else empty_config);
  synced = e.synced;
  expires_at = now + cpa_config_fallback_ttl;
}

abbrev pub answer_of : CacheEntry → CpaConfig × Bool
answer_of e = (e.config, e.synced)

abbrev pub reuse : Option CacheEntry → CpaConfig × Bool
reuse none = (empty_config, false)
reuse (some e) = answer_of e

abbrev pub timeout_of : CpaConfig × Bool → ℕ
timeout_of (c, synced) =
    if synced then effective_response_header_timeout c else default_response_header_timeout

-- `lower` is `unicode.ToLower` of a code point.
module _ (lower : ℕ → ℕ) where
  unfoldable pub normalize_cpa_url : Text → Text
  unfolding trim_space trim_slashes
  normalize_cpa_url value = map lower (trim_slashes (trim_space value))

  unfoldable pub same_cpa_url : Text → Text → Bool
  unfolding normalize_cpa_url
  same_cpa_url left right =
      not (is_empty (normalize_cpa_url left))
      && text_eq (normalize_cpa_url left) (normalize_cpa_url right)

  -- The key of the collector serves a target with the same URL and none of its own.
  abbrev pub with_management_key : Target → Target → Target
  with_management_key collector target =
      if is_empty (trim_space target.management_key)
        && same_cpa_url target.cpa_url collector.cpa_url
      then record target { management_key = trim_space collector.management_key }
      else target

-- `fetch` is the answer of the service, none for an error.
module _ (lower : ℕ → ℕ) (fetch : Target → Option CpaConfig) where
  unfoldable pub cached_cpa_config : Cache → Target → ℕ → Cache × (CpaConfig × Bool)
  unfolding normalize_cpa_url trim_space
  cached_cpa_config cache target now =
      let key = normalize_cpa_url lower target.cpa_url in
      let previous = find_entry key cache in
      if is_empty key || is_empty (trim_space target.management_key)
      then (cache, (empty_config, false))
      else if is_fresh now previous
      then (cache, reuse previous)
      else (let e = entry_of now previous (fetch target) in (put_entry key e cache, answer_of e))

  -- `modelProxyResponseHeaderTimeout`, where `collector` has the collector's URL and key.
  unfoldable pub response_header_timeout : Cache → Target → Target → ℕ → Cache × ℕ
  unfolding same_cpa_url cached_cpa_config effective_response_header_timeout
  response_header_timeout cache collector target now =
      let r = cached_cpa_config cache (with_management_key lower collector target) now in
      (r.0, timeout_of r.1)
