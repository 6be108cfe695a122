-- ===== src/ProxyTargets/Tests.antt =====
-- The theorem at two services, and what a list with repeated IDs becomes.
use cpa_helper_s.Prelude.{ℕ, ◌+◌, ◌≡◌, refl, true, Option, none, some, List, [], ◌∷◌, map}
use cpa_helper_s.Prelude.Text.{Text, codes, text_eq, trim_space}
use cpa_helper_s.HeaderTimeout.{trim_slashes}
use cpa_helper_s.ProxyTargets.{
  AuthPoolProxyTargetConfig, AppConfig, clean, normalize_auth_pool_proxy_targets,
  active_auth_pool_proxy_target, decode_auth_pool_proxy_targets_json,
  encode_auth_pool_proxy_targets_json, auth_pool_proxy_mode_enabled, primary_cpa_management_target,
}
use cpa_helper_s.ProxyTargets.Settings.{
  mask_api_key, auth_pool_proxy_target_views, auth_pool_proxy_target_configs,
  merge_auth_pool_proxy_target_secrets,
}
use cpa_helper_s.ProxyTargets.Saved.{
  unchanged, IsStored, merge_auth_pool_proxy_target_secrets-unchanged,
}

-- The numbers below ten.
abbrev digit : ℕ → Text
digit n = (n + 48) ∷ []

abbrev first_target : AuthPoolProxyTargetConfig
first_target = record {
  id = codes "a";
  name = codes "A";
  cpa_url = codes "http://a";
  management_key = codes "m";
  api_key = [];
  enabled = true;
}

abbrev second_target : AuthPoolProxyTargetConfig
second_target = record first_target {
  id = codes "b";
  cpa_url = codes "http://b";
  api_key = codes "k";
}

abbrev two : List AuthPoolProxyTargetConfig
two = first_target ∷ second_target ∷ []

two-IsStored : IsStored [] two
unfolding clean trim_space trim_slashes text_eq
two-IsStored = (refl, refl, refl, refl, (refl, refl, refl, refl, tt))

merge_auth_pool_proxy_target_secrets-unchanged_example :
    merge_auth_pool_proxy_target_secrets digit two (
      auth_pool_proxy_target_configs digit (map unchanged (auth_pool_proxy_target_views digit two)))
    ≡ two
merge_auth_pool_proxy_target_secrets-unchanged_example =
    merge_auth_pool_proxy_target_secrets-unchanged digit two two-IsStored

-- Three targets of one ID: the second and the third get the same one.
repeated-ids :
    map
      (λ (t : AuthPoolProxyTargetConfig). t.id)
      (normalize_auth_pool_proxy_targets digit (first_target ∷ first_target ∷ first_target ∷ []))
    ≡ codes "a" ∷ codes "a-2" ∷ codes "a-2" ∷ []
unfolding normalize_auth_pool_proxy_targets clean trim_space trim_slashes text_eq
repeated-ids = refl

-- A blank text and one that is not read are no targets.
decoded-blank :
    (unmarshal : Text → Option (List AuthPoolProxyTargetConfig))
    → decode_auth_pool_proxy_targets_json digit unmarshal (codes "  ") ≡ []
unfolding decode_auth_pool_proxy_targets_json trim_space
decoded-blank unmarshal = refl

encoded-unwritable : encode_auth_pool_proxy_targets_json digit (λ targets. none) two ≡ codes "[]"
unfolding encode_auth_pool_proxy_targets_json
encoded-unwritable = refl

abbrev config : AppConfig
config = record {
  auth_pool_proxy_targets = two;
  auth_pool_proxy_api_key = codes "d";
  cli_proxy_url = codes "http://d/";
  management_key = codes "e";
}

-- The first target has no API key, so the second is used; it also has a management key.
config-active : active_auth_pool_proxy_target digit config ≡ some second_target
unfolding active_auth_pool_proxy_target clean trim_space trim_slashes text_eq
config-active = refl

config-primary : primary_cpa_management_target digit config ≡ some second_target
unfolding primary_cpa_management_target clean trim_space trim_slashes text_eq
config-primary = refl

config-enabled :
    auth_pool_proxy_mode_enabled digit (record config { auth_pool_proxy_targets = [] }) ≡ true
unfolding auth_pool_proxy_mode_enabled trim_space trim_slashes
config-enabled = refl

long_key : mask_api_key (codes " sk-0123456789 ") ≡ codes "sk-01****6789"
unfolding mask_api_key trim_space
long_key = refl
