-- ===== src/AuthPools/Entitled/Runs.antt =====
-- backend/internal/app/auth_pools.go: runs of `replaceAuthPoolAccess`, `bindAPIKeyToAuthPool` and
-- `unbindAPIKeyFromAuthPool`.
use cpa_helper_s.Prelude.{ℕ, ◌≡◌, true, false, List}
use cpa_helper_s.Prelude.Int.{ℤ}
use cpa_helper_s.Prelude.Text.{Text, trim_space}
use cpa_helper_s.AuthPools.{AuthUser}
use cpa_helper_s.AuthPools.Database.{Plugin}
use cpa_helper_s.AuthPools.Access.{World, replace_auth_pool_access}
use cpa_helper_s.AuthPools.Access.Replaced.{Exempt, AllAllowed}
use cpa_helper_s.AuthPools.Bindings.{bind_api_key_to_auth_pool, unbind_api_key_from_auth_pool}
use cpa_helper_s.AuthPools.Entitled.{has_right}
use cpa_helper_s.AuthPools.Entitled.Saving.{KeepsNames}
use cpa_helper_s.AuthPools.Entitled.Requests.{
  ListsOnly, replace_auth_pool_access-AllAllowed, bind_api_key_to_auth_pool-AllAllowed,
  unbind_api_key_from_auth_pool-AllAllowed,
}

module _ (lower : ℕ → ℕ) (plugin : Plugin) (x : Exempt) where
  -- A request of a user or of an administrator that changes who holds a pool, or who may. The exempt
  -- keys are at least those of other users that an administrator binds, and the exempt pools at least
  -- those that the plugin lists with a visibility of its own when a key is bound.
  pub data Step : World lower plugin → World lower plugin → Type 0 where
    replaces :
        (w : World lower plugin) (pool visibility : Text) (ids : List ℤ)
        → Step w (replace_auth_pool_access lower plugin w pool visibility ids).0
    binds :
        (w : World lower plugin) (user : AuthUser) (key pool : Text)
        → ListsOnly lower plugin x w.1
        → (x.keys (trim_space key) ≡ false → has_right w.0 user (trim_space key) ≡ true)
        → Step w (bind_api_key_to_auth_pool lower plugin w user key pool).0
    unbinds :
        (w : World lower plugin) (user : AuthUser) (key : Text)
        → Step w (unbind_api_key_from_auth_pool lower plugin w user key).0

  pub data Steps : World lower plugin → World lower plugin → Type 0 where
    stop : (w : World lower plugin) → Steps w w
    next : (u v w : World lower plugin) → Step u v → Steps v w → Steps u w

  Step-AllAllowed :
      KeepsNames lower → (v w : World lower plugin) → Step v w → AllAllowed x v.0 → AllAllowed x w.0
  Step-AllAllowed keeps v w (replaces _ pool visibility ids) all =
      replace_auth_pool_access-AllAllowed lower plugin x v pool visibility ids all
  Step-AllAllowed keeps v w (binds _ user key pool lists right) all =
      bind_api_key_to_auth_pool-AllAllowed lower plugin x keeps v user key pool lists right all
  Step-AllAllowed keeps v w (unbinds _ user key) all =
      unbind_api_key_from_auth_pool-AllAllowed lower plugin x v user key all

  -- Take any set of exempt keys and any set of exempt pools, where the keys contain at least those of
  -- users without administrator rights that an administrator binds in the run, and the pools at least
  -- those that the plugin lists with a visibility when a key is bound, which the code then stores.
  -- After any run of replacing who a pool is for, binding and unbinding, whatever the plugin answers,
  -- every binding with neither an exempt key nor an exempt pool is of a key whose owner may use the
  -- pool (an administrator, or a user whom the pool's visibility or its list of users lets in), where
  -- this held before. Lower case leaves the names of the visibilities.
  pub Steps-AllAllowed :
      (keeps : KeepsNames lower) (v w : World lower plugin)
      → Steps v w
      → AllAllowed x v.0
      → AllAllowed x w.0
  Steps-AllAllowed keeps v w (stop _) all = all
  Steps-AllAllowed keeps v w (next _ u _ one rest) all =
      Steps-AllAllowed keeps u w rest (Step-AllAllowed keeps v u one all)
