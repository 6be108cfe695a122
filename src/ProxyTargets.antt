-- ===== src/ProxyTargets.antt =====
-- backend/internal/app/auth_pool_proxy_targets.go: the CPA services that the proxy may use. A text is
-- a list of code points; `decimal` writes a number for `fmt.Sprintf`.
pub mod Settings
pub mod Saved
mod Tests
use cpa_helper_s.Prelude.{
  ℕ, suc, ◌+◌, ◌-◌, Bool, true, false, not, ◌&&◌, ◌||◌, Option, none, some, List, [], ◌∷◌, ◌++◌,
  ltb, leb, if◌then◌else◌, length, take, drop, replicate, map,
}
use cpa_helper_s.Prelude.Text.{Text, codes, text_eq, is_empty, trim_space}
use cpa_helper_s.HeaderTimeout.{trim_slashes}

pub record AuthPoolProxyTargetConfig : Type 0 where
  pub id : Text
  pub name : Text
  pub cpa_url : Text
  pub management_key : Text
  pub api_key : Text
  pub enabled : Bool

-- The part of `AppConfig` that the targets are chosen from.
pub record AppConfig : Type 0 where
  pub auth_pool_proxy_targets : List AuthPoolProxyTargetConfig
  pub auth_pool_proxy_api_key : Text
  pub cli_proxy_url : Text
  pub management_key : Text

unfoldable pub clean : AuthPoolProxyTargetConfig → AuthPoolProxyTargetConfig
clean t = record {
  id = trim_space t.id;
  name = trim_space t.name;
  cpa_url = trim_slashes (trim_space t.cpa_url);
  management_key = trim_space t.management_key;
  api_key = trim_space t.api_key;
  enabled = t.enabled;
}

abbrev pub is_blank_target : AuthPoolProxyTargetConfig → Bool
is_blank_target t =
    is_empty t.cpa_url && is_empty t.management_key && is_empty t.api_key && is_empty t.name

-- `seen[id]`, where every use of an ID stands in the list once.
abbrev pub seen_count : Text → List Text → ℕ
seen_count id [] = 0
seen_count id (s ∷ ss) = if text_eq s id then suc (seen_count id ss) else seen_count id ss

abbrev pub with_name : AuthPoolProxyTargetConfig → AuthPoolProxyTargetConfig
with_name t =
    if is_empty t.name
    then record t { name = if is_empty t.cpa_url then t.id else t.cpa_url }
    else t

module _ (decimal : ℕ → Text) where
  abbrev pub with_id : ℕ → AuthPoolProxyTargetConfig → AuthPoolProxyTargetConfig
  with_id n t = if is_empty t.id then record t { id = codes "cpa-" ++ decimal (n + 1) } else t

  abbrev pub numbered : List Text → AuthPoolProxyTargetConfig → AuthPoolProxyTargetConfig
  numbered seen t =
      let count = seen_count t.id seen in
      if ltb 0 count then record t { id = t.id ++ codes "-" ++ decimal (count + 1) } else t

  -- The loop, with the number of targets in the result and the IDs that were given.
  unfoldable pub normalize_from :
      ℕ → List Text → List AuthPoolProxyTargetConfig → List AuthPoolProxyTargetConfig
  unfolding clean
  normalize_from n seen [] = []
  normalize_from n seen (t ∷ ts) =
      let u = numbered seen (with_id n (clean t)) in
      let skipped = normalize_from n seen ts in
      let rest = normalize_from (n + 1) (u.id ∷ seen) ts in
      if is_blank_target (clean t) then skipped else with_name u ∷ rest

  unfoldable pub normalize_auth_pool_proxy_targets :
      List AuthPoolProxyTargetConfig → List AuthPoolProxyTargetConfig
  unfolding normalize_from
  normalize_auth_pool_proxy_targets input = normalize_from 0 [] input

  -- `json.Unmarshal` and `json.Marshal` of the list are parameters.
  abbrev pub decoded : Option (List AuthPoolProxyTargetConfig) → List AuthPoolProxyTargetConfig
  decoded none = []
  decoded (some targets) = normalize_auth_pool_proxy_targets targets

  unfoldable pub decode_auth_pool_proxy_targets_json :
      (Text → Option (List AuthPoolProxyTargetConfig)) → Text → List AuthPoolProxyTargetConfig
  unfolding normalize_auth_pool_proxy_targets
  decode_auth_pool_proxy_targets_json unmarshal value =
      if is_empty (trim_space value) then [] else decoded (unmarshal (trim_space value))

  abbrev pub or_no_targets : Option Text → Text
  or_no_targets none = codes "[]"
  or_no_targets (some text) = text

  unfoldable pub encode_auth_pool_proxy_targets_json :
      (List AuthPoolProxyTargetConfig → Option Text) → List AuthPoolProxyTargetConfig → Text
  unfolding normalize_auth_pool_proxy_targets
  encode_auth_pool_proxy_targets_json marshal targets =
      or_no_targets (marshal (normalize_auth_pool_proxy_targets targets))

  abbrev pub is_active : AuthPoolProxyTargetConfig → Bool
  is_active t =
      t.enabled && not (is_empty (trim_space t.cpa_url) || is_empty (trim_space t.api_key))

  abbrev pub first_active : List AuthPoolProxyTargetConfig → Option AuthPoolProxyTargetConfig
  first_active [] = none
  first_active (t ∷ ts) = if is_active t then some t else first_active ts

  abbrev pub default_target : AppConfig → AuthPoolProxyTargetConfig
  default_target cfg = record {
    id = codes "default";
    name = codes "Default CPA";
    cpa_url = trim_slashes (trim_space cfg.cli_proxy_url);
    management_key = trim_space cfg.management_key;
    api_key = trim_space cfg.auth_pool_proxy_api_key;
    enabled = true;
  }

  abbrev pub or_default_target :
      AppConfig → Option AuthPoolProxyTargetConfig → Option AuthPoolProxyTargetConfig
  or_default_target cfg (some t) = some t
  or_default_target cfg none =
      if not (is_empty (trim_space cfg.auth_pool_proxy_api_key))
        && not (is_empty (trim_space cfg.cli_proxy_url))
      then some (default_target cfg)
      else none

  unfoldable pub active_auth_pool_proxy_target : AppConfig → Option AuthPoolProxyTargetConfig
  unfolding normalize_auth_pool_proxy_targets
  active_auth_pool_proxy_target cfg =
      or_default_target cfg
        (first_active (normalize_auth_pool_proxy_targets cfg.auth_pool_proxy_targets))

  abbrev pub is_found : Option AuthPoolProxyTargetConfig → Bool
  is_found none = false
  is_found (some t) = true

  unfoldable pub auth_pool_proxy_mode_enabled : AppConfig → Bool
  unfolding active_auth_pool_proxy_target
  auth_pool_proxy_mode_enabled cfg = is_found (active_auth_pool_proxy_target cfg)

  abbrev pub managed : AppConfig → Option AuthPoolProxyTargetConfig
  managed cfg =
      if not (is_empty (trim_space cfg.cli_proxy_url))
        && not (is_empty (trim_space cfg.management_key))
      then some (default_target cfg)
      else none

  abbrev pub or_managed :
      AppConfig → Option AuthPoolProxyTargetConfig → Option AuthPoolProxyTargetConfig
  or_managed cfg none = managed cfg
  or_managed cfg (some t) = if is_empty (trim_space t.management_key) then managed cfg else some t

  unfoldable pub primary_cpa_management_target : AppConfig → Option AuthPoolProxyTargetConfig
  unfolding active_auth_pool_proxy_target
  primary_cpa_management_target cfg = or_managed cfg (active_auth_pool_proxy_target cfg)
