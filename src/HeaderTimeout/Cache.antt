-- ===== src/HeaderTimeout/Cache.antt =====
-- When the proxy asks the CPA service for its settings, and what it does when the service fails.
use cpa_helper_s.Prelude.{
  ℕ, ◌+◌, ◌≤◌, ◌<◌, ◌≡◌, refl, ap, ◌∙◌, true, false, Option, none, some, [], ◌∷◌, arith, ltb,
}
use cpa_helper_s.Prelude.Text.{Text, text_eq_iff, is_empty, trim_space}
use cpa_helper_s.HeaderTimeout.{
  CpaConfig, CacheEntry, Target, Cache, find_entry, put_entry, is_fresh, entry_of, answer_of,
  normalize_cpa_url, cached_cpa_config,
}

find-put : (key : Text) (e : CacheEntry) (es : Cache) → find_entry key (put_entry key e es) ≡ some e
find-put key e [] = ground (arith, text_eq_iff key key)
find-put key e ((k, f) ∷ es) = ground (arith, find-put key e es, text_eq_iff key key)

entry-expires :
    (now : ℕ) (p : Option CacheEntry) (a : Option CpaConfig)
    → now + 15 ≤ (entry_of now p a).expires_at
entry-expires now p (some c) = omega arith
entry-expires now none none = omega arith
entry-expires now (some e) none = omega arith

-- The service is asked for this target at this time: it has a URL and a key, and no entry is fresh.
abbrev pub IsAsked : (ℕ → ℕ) → Cache → Target → ℕ → Type 0
IsAsked lower cache t now =
    (is_empty (normalize_cpa_url lower t.cpa_url) ≡ false)
    × (is_empty (trim_space t.management_key) ≡ false)
    × (is_fresh now (find_entry (normalize_cpa_url lower t.cpa_url) cache) ≡ false)

asked-eq :
    (lower : ℕ → ℕ) (fetch : Target → Option CpaConfig) (cache : Cache) (t : Target) (now : ℕ)
    → IsAsked lower cache t now
    → let key = normalize_cpa_url lower t.cpa_url in
      let e = entry_of now (find_entry key cache) (fetch t) in
      cached_cpa_config lower fetch cache t now ≡ (put_entry key e cache, answer_of e)
unfolding cached_cpa_config
asked-eq lower fetch cache t now (a, b, c) = rw (a, b, c) refl

fresh-eq :
    (lower : ℕ → ℕ) (fetch : Target → Option CpaConfig) (cache : Cache) (t : Target) (now : ℕ)
    (e : CacheEntry)
    → is_empty (normalize_cpa_url lower t.cpa_url) ≡ false
    → is_empty (trim_space t.management_key) ≡ false
    → find_entry (normalize_cpa_url lower t.cpa_url) cache ≡ some e
    → now < e.expires_at
    → cached_cpa_config lower fetch cache t now ≡ (cache, answer_of e)
unfolding cached_cpa_config
fresh-eq lower fetch cache t now e a b c d =
    let f : ltb now e.expires_at ≡ true = ground (arith, d) in rw (a, b, c, f) refl

-- Once the service was asked for a target, for the next 15 seconds every target with the same
-- normalized URL and a management key gets the same answer, whatever the service would say by then,
-- and the cache stays as it is.
cached_cpa_config-reused :
    (lower : ℕ → ℕ) (fetch later_fetch : Target → Option CpaConfig) (cache : Cache) (t u : Target)
    (now later : ℕ)
    → IsAsked lower cache t now
    → normalize_cpa_url lower u.cpa_url ≡ normalize_cpa_url lower t.cpa_url
    → is_empty (trim_space u.management_key) ≡ false
    → later < now + 15
    → let first = cached_cpa_config lower fetch cache t now in
      cached_cpa_config lower later_fetch first.0 u later ≡ first
cached_cpa_config-reused lower fetch later_fetch cache t u now later h same k l =
    let key = normalize_cpa_url lower t.cpa_url in
    let e = entry_of now (find_entry key cache) (fetch t) in
    let expires = entry-expires now (find_entry key cache) (fetch t) in
    rw (asked-eq lower fetch cache t now h) (
      fresh-eq lower later_fetch (put_entry key e cache) u later e (ap is_empty same ∙ h.0) k
        (ap (λ x. find_entry x (put_entry key e cache)) same ∙ find-put key e cache)
        (omega (arith, expires, l)))
