-- ===== src/ProxyTargets/Saved.antt =====
-- The settings form for the CPA services, as its saving goes through `authPoolProxyTargetConfigs` and
-- `mergeAuthPoolProxyTargetSecrets`.
use cpa_helper_s.Prelude.{
  ℕ, ◌+◌, ◌≡◌, refl, ap, ◌∙◌, sym, false, Option, none, some, List, [], ◌∷◌, if◌then◌else◌, map,
  All, All-map, arith, inl, inr, Bool-cases,
}
use mathlib.Core.List.{map-map}
use cpa_helper_s.Prelude.Text.{Text, text_eq, text_eq_iff, text_eq_refl, is_empty, trim_space}
use cpa_helper_s.ProxyTargets.{
  AuthPoolProxyTargetConfig, clean, is_blank_target, seen_count, numbered, with_id, with_name,
  normalize_from, normalize_auth_pool_proxy_targets,
}
use cpa_helper_s.ProxyTargets.Settings.{
  AuthPoolProxyTargetView, view_of, by_id, merge_onto, auth_pool_proxy_target_views,
  auth_pool_proxy_target_configs, merge_auth_pool_proxy_target_secrets,
}

-- What the form sends for a service that the administrator left alone: no key, since it never had one.
abbrev pub unchanged : AuthPoolProxyTargetView → AuthPoolProxyTargetConfig
unchanged v = record {
  id = v.id;
  name = v.name;
  cpa_url = v.cpa_url;
  management_key = [];
  api_key = [];
  enabled = v.enabled;
}

-- Targets as they are stored after a normalization: trimmed, with a name, and each with an ID that is
-- not among `seen` nor before it in the list.
abbrev pub IsStored : List Text → List AuthPoolProxyTargetConfig → Type 0
IsStored seen [] = Unit
IsStored seen (t ∷ ts) =
    (clean t ≡ t)
    × (is_empty t.id ≡ false)
    × (is_empty t.name ≡ false)
    × (seen_count t.id seen ≡ 0)
    × IsStored (t.id ∷ seen) ts

named-is_blank_target :
    (t : AuthPoolProxyTargetConfig) → is_empty t.name ≡ false → is_blank_target t ≡ false
named-is_blank_target t h = ground (arith, h)

-- The loop from a target that was trimmed.
abbrev after_clean :
    (ℕ → Text)
    → ℕ
    → List Text
    → AuthPoolProxyTargetConfig
    → List AuthPoolProxyTargetConfig
    → List AuthPoolProxyTargetConfig
after_clean decimal n seen u ts =
    let v = numbered decimal seen (with_id decimal n u) in
    if is_blank_target u
    then normalize_from decimal n seen ts
    else with_name v ∷ normalize_from decimal (n + 1) (v.id ∷ seen) ts

normalize_from-stored :
    (decimal : ℕ → Text) (n : ℕ) (seen : List Text) (ts : List AuthPoolProxyTargetConfig)
    → IsStored seen ts
    → normalize_from decimal n seen ts ≡ ts
unfolding normalize_from
normalize_from-stored decimal n seen [] h = refl
normalize_from-stored decimal n seen (t ∷ ts) (c, i, m, z, h) =
    let rest = normalize_from-stored decimal (n + 1) (t.id ∷ seen) ts h in
    ap (λ u. after_clean decimal n seen u ts) c ∙ rw (named-is_blank_target t m, i, z, m, rest) refl

abbrev blank : AuthPoolProxyTargetConfig → AuthPoolProxyTargetConfig
blank t = unchanged (view_of t)

clean-blank : (t : AuthPoolProxyTargetConfig) → clean t ≡ t → clean (blank t) ≡ blank t
unfolding clean trim_space
clean-blank t h = ap blank h

blank-IsStored :
    (seen : List Text) (ts : List AuthPoolProxyTargetConfig)
    → IsStored seen ts
    → IsStored seen (map blank ts)
blank-IsStored seen [] h = tt
blank-IsStored seen (t ∷ ts) (c, i, m, z, h) =
    (clean-blank t c, i, m, z, blank-IsStored (t.id ∷ seen) ts h)

map-clean :
    (seen : List Text) (ts : List AuthPoolProxyTargetConfig) → IsStored seen ts → map clean ts ≡ ts
map-clean seen [] h = refl
map-clean seen (t ∷ ts) (c, i, m, z, h) = rw (c, map-clean (t.id ∷ seen) ts h) refl

-- An ID that was seen is not the ID of a later target.
by_id-seen :
    (id : Text) (found : Option AuthPoolProxyTargetConfig) (seen : List Text)
    (ts : List AuthPoolProxyTargetConfig)
    → (seen_count id seen ≡ 0 → ⊥)
    → IsStored seen ts
    → by_id id found ts ≡ found
by_id-seen id found seen [] s h = refl
by_id-seen id found seen (t ∷ ts) s (c, i, m, z, h) = elim (Bool-cases (text_eq t.id id)) [
  | inl e ↦ absurd (s (ap (λ x. seen_count x seen) (sym ((text_eq_iff t.id id).0 e)) ∙ z))
  | inr e ↦ rw (e) (by_id-seen id found (t.id ∷ seen) ts (λ q. s (ground (arith, q))) h)
]

by_id-stored :
    (seen : List Text) (ts : List AuthPoolProxyTargetConfig)
    → IsStored seen ts
    → All (λ t. (found : Option AuthPoolProxyTargetConfig) → by_id t.id found ts ≡ some t) ts
by_id-stored seen [] h = tt
by_id-stored seen (t ∷ ts) (c, i, m, z, h) =
    let again = text_eq_refl t.id in
    (
      (λ found. rw (again) (by_id-seen t.id (some t) (t.id ∷ seen) ts (ground (arith, again)) h)),
      All-map _ _ ts (λ u f found. f _) (by_id-stored (t.id ∷ seen) ts h),
    )

merge_onto-blank :
    (stored ts : List AuthPoolProxyTargetConfig)
    → All (λ t. (found : Option AuthPoolProxyTargetConfig) → by_id t.id found stored ≡ some t) ts
    → merge_onto stored (map blank ts) ≡ ts
unfolding trim_space
merge_onto-blank stored [] h = refl
merge_onto-blank stored (t ∷ ts) (f, h) = rw (f none, merge_onto-blank stored ts h) refl

-- When the targets are stored as a normalization leaves them, trimmed, named and with an ID of their
-- own each, and the settings form is saved with nothing changed, so that it sends for every service
-- what the view shows and blank keys, then the stored targets are the same as before, with the
-- management keys and the API keys that the form never saw.
pub merge_auth_pool_proxy_target_secrets-unchanged :
    (decimal : ℕ → Text) (existing : List AuthPoolProxyTargetConfig)
    → IsStored [] existing
    → merge_auth_pool_proxy_target_secrets decimal existing (
        auth_pool_proxy_target_configs decimal
          (map unchanged (auth_pool_proxy_target_views decimal existing)))
      ≡ existing
unfolding merge_auth_pool_proxy_target_secrets auth_pool_proxy_target_configs
    auth_pool_proxy_target_views normalize_auth_pool_proxy_targets
merge_auth_pool_proxy_target_secrets-unchanged decimal existing h =
    let s = blank-IsStored [] existing h in
    rw
      (
        normalize_from-stored decimal 0 [] existing h,
        map-map unchanged view_of existing,
        map-clean [] (map blank existing) s,
        normalize_from-stored decimal 0 [] (map blank existing) s,
        normalize_from-stored decimal 0 [] (map blank existing) s,
      )
      (merge_onto-blank existing existing (by_id-stored [] existing h))
