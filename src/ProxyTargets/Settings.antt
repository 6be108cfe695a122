-- ===== src/ProxyTargets/Settings.antt =====
-- backend/internal/app/auth_pools.go: the targets in the settings form. The views show which keys are
-- set; what comes back is merged with the stored keys. `decimal` is as in the parent module.
use cpa_helper_s.Prelude.{
  ℕ, ◌-◌, Bool, not, Option, none, some, List, [], ◌∷◌, ◌++◌, ltb, leb, if◌then◌else◌, length, take,
  drop, replicate, map,
}
use cpa_helper_s.Prelude.Text.{Text, text_eq, is_empty, trim_space}
use cpa_helper_s.ProxyTargets.{AuthPoolProxyTargetConfig, clean, normalize_auth_pool_proxy_targets}

pub record AuthPoolProxyTargetView : Type 0 where
  pub id : Text
  pub name : Text
  pub cpa_url : Text
  pub management_key_set : Bool
  pub management_key_preview : Text
  pub api_key_set : Bool
  pub api_key_preview : Text
  pub enabled : Bool

-- `maskAPIKey`.
abbrev pub stars : ℕ → Text
stars n = replicate n b'*'

abbrev pub mask_runes : Text → Text
mask_runes k =
    if is_empty k
    then []
    else if leb (length k) 10
    then stars (length k)
    else take 5 k
      ++ stars (if ltb (length k - 9) 3 then 3 else length k - 9)
      ++ drop (length k - 4) k

unfoldable pub mask_api_key : Text → Text
mask_api_key k = mask_runes (trim_space k)

abbrev pub view_of : AuthPoolProxyTargetConfig → AuthPoolProxyTargetView
view_of t = record {
  id = t.id;
  name = t.name;
  cpa_url = t.cpa_url;
  management_key_set = not (is_empty (trim_space t.management_key));
  management_key_preview = mask_api_key t.management_key;
  api_key_set = not (is_empty (trim_space t.api_key));
  api_key_preview = mask_api_key t.api_key;
  enabled = t.enabled;
}

-- `byID[id]`: the last target of the ID.
abbrev pub by_id :
    Text
    → Option AuthPoolProxyTargetConfig
    → List AuthPoolProxyTargetConfig
    → Option AuthPoolProxyTargetConfig
by_id id found [] = found
by_id id found (t ∷ ts) = by_id id (if text_eq t.id id then some t else found) ts

abbrev pub with_secrets :
    AuthPoolProxyTargetConfig → Option AuthPoolProxyTargetConfig → AuthPoolProxyTargetConfig
with_secrets t none = t
with_secrets t (some old) = record t {
  management_key =
      if is_empty (trim_space t.management_key) then old.management_key else t.management_key;
  api_key = if is_empty (trim_space t.api_key) then old.api_key else t.api_key;
}

abbrev pub merge_onto :
    List AuthPoolProxyTargetConfig → List AuthPoolProxyTargetConfig → List AuthPoolProxyTargetConfig
merge_onto stored [] = []
merge_onto stored (t ∷ ts) = with_secrets t (by_id t.id none stored) ∷ merge_onto stored ts

module _ (decimal : ℕ → Text) where
  unfoldable pub auth_pool_proxy_target_views :
      List AuthPoolProxyTargetConfig → List AuthPoolProxyTargetView
  unfolding normalize_auth_pool_proxy_targets mask_api_key
  auth_pool_proxy_target_views targets =
      map view_of (normalize_auth_pool_proxy_targets decimal targets)

  -- The fields of a payload are those of a target.
  unfoldable pub auth_pool_proxy_target_configs :
      List AuthPoolProxyTargetConfig → List AuthPoolProxyTargetConfig
  unfolding normalize_auth_pool_proxy_targets clean
  auth_pool_proxy_target_configs payload =
      normalize_auth_pool_proxy_targets decimal (map clean payload)

  unfoldable pub merge_auth_pool_proxy_target_secrets :
      List AuthPoolProxyTargetConfig
      → List AuthPoolProxyTargetConfig
      → List AuthPoolProxyTargetConfig
  unfolding normalize_auth_pool_proxy_targets
  merge_auth_pool_proxy_target_secrets existing next =
      merge_onto (normalize_auth_pool_proxy_targets decimal existing)
        (normalize_auth_pool_proxy_targets decimal next)
