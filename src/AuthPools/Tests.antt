-- ===== src/AuthPools/Tests.antt =====
-- Two users and a pool that one of them may use, and the theorems at it.
use cpa_helper_s.Prelude.{
  inl, ◌==◌, arith, ℕ, ◌≡◌, refl, Bool, true, false, not, ◌&&◌, sym, All, some, List, [], ◌∷◌,
  if◌then◌else◌, map,
}
use cpa_helper_s.Prelude.Int.{pos, negsuc}
use cpa_helper_s.Prelude.Text.{Text, codes, text_eq, ascii_lower, trim_space}
use cpa_helper_s.Errors.{ok, err, ok-injective, validation, forbidden}
use cpa_helper_s.AuthPools.{
  AuthPool, AuthUser, same_int, selected_users, round_robin, is_positive, auth_pool_user_id_allowed,
  normalize_auth_pool_user_ids, auth_pool_model_filter, auth_pool_model_filter_allows,
  auth_pool_allows_model, auth_pool_visible_to_user,
}
use cpa_helper_s.AuthPools.Users.{Ascending, normalize_auth_pool_user_ids_lem}
use cpa_helper_s.AuthPools.Models.{
  IsAscii, FoldsAscii, auth_pool_model_filter_allows-auth_pool_allows_model,
}
use cpa_helper_s.AuthPools.Database.{Database, Plugin, pool_row, is_some}
use cpa_helper_s.AuthPools.Access.{World, replace_auth_pool_access}
use cpa_helper_s.AuthPools.Access.Replaced.{AllAllowed, Exempt}
use cpa_helper_s.AuthPools.Access.Outcome.{AllOrNothing, replace_auth_pool_access-AllOrNothing}
use cpa_helper_s.AuthPools.Bindings.{
  bind_api_key_to_auth_pool, ensure_auth_pool_binding_access, local_auth_pool_id_for_api_key,
}
use cpa_helper_s.AuthPools.Entitled.Runs.{Steps, replaces, binds, stop, next, Steps-AllAllowed}
use cpa_helper_s.AuthPools.Entitled.Saving.{KeepsNames, OmitsOrExempt}
use cpa_helper_s.AuthPools.Views.{
  with_users, ensure_auth_pool_binding_access-auth_pool_visible_to_user,
}

abbrev team : AuthPool
team = record {
  id = codes "team";
  name = codes "Team";
  description = [];
  auth_ids = [];
  resolved_auth_ids = [];
  account_types = [];
  providers = [];
  models = codes "GPT-5" ∷ codes " " ∷ [];
  scheduling_strategy = round_robin;
  max_concurrency = pos 0;
  visibility = selected_users;
  allowed_user_ids = [];
  enabled = true;
}

abbrev ann : AuthUser
ann = record { id = pos 1; username = codes "ann"; is_admin = false }

abbrev database : Database
database = record {
  pools = team ∷ [];
  entitlements = record { pool_id = codes "team"; user_id = pos 1 } ∷ [];
  keys =
      record { api_key_hash = codes "k1"; user_id = pos 1; description = [] }
      ∷ record { api_key_hash = codes "k2"; user_id = pos 2; description = [] }
      ∷ [];
  users =
      record { id = pos 1; username = codes "ann"; is_admin = false }
      ∷ record { id = pos 2; username = codes "bob"; is_admin = false }
      ∷ [];
  bindings = [];
}

-- The pool as the plugin lists it, and a plugin that agrees to everything.
abbrev listed_team : AuthPool
listed_team = record team { visibility = [] }

abbrev agrees : Plugin
agrees = record {
  State = ℕ;
  put_binding = λ s b. (s, ok b);
  delete_binding = λ s hash. (s, ok tt);
  status = λ s. (s, ok (listed_team ∷ []));
}

abbrev world : World ascii_lower agrees
world = (database, 0)

normalize_auth_pool_user_ids_lem_example :
    Ascending (normalize_auth_pool_user_ids (pos 7 ∷ negsuc 0 ∷ pos 3 ∷ pos 7 ∷ []))
    × (auth_pool_user_id_allowed
          (normalize_auth_pool_user_ids (pos 7 ∷ negsuc 0 ∷ pos 3 ∷ pos 7 ∷ []))
          (pos 7)
        ≡ (is_positive (pos 7)
            && auth_pool_user_id_allowed (pos 7 ∷ negsuc 0 ∷ pos 3 ∷ pos 7 ∷ []) (pos 7)))
normalize_auth_pool_user_ids_lem_example =
    normalize_auth_pool_user_ids_lem (pos 7 ∷ negsuc 0 ∷ pos 3 ∷ pos 7 ∷ []) (pos 7)

ids_sorted :
    normalize_auth_pool_user_ids (pos 7 ∷ negsuc 0 ∷ pos 3 ∷ pos 7 ∷ []) ≡ pos 3 ∷ pos 7 ∷ []
unfolding normalize_auth_pool_user_ids
ids_sorted = refl

-- A comparison that folds ASCII as `strings.EqualFold` does, and the long s to "s".
abbrev fold : ℕ → ℕ
fold c = if c == 0x17F then b's' else ascii_lower c

abbrev equal_lower : Text → Text → Bool
equal_lower a b = text_eq (map fold b) (map fold a)

fold-ascii : (t : Text) → IsAscii t → map fold t ≡ map ascii_lower t
fold-ascii [] h = refl
fold-ascii (c ∷ cs) h =
    let long : (c == 0x17F) ≡ false = ground (arith, h) in rw (long, fold-ascii cs h.1) refl

equal_lower-FoldsAscii : FoldsAscii ascii_lower equal_lower
equal_lower-FoldsAscii a b ascii ascii_too = rw (fold-ascii a ascii, fold-ascii b ascii_too) refl

asked-IsAscii : IsAscii (codes " gpt-5")
asked-IsAscii = ground arith

models-IsAscii : All IsAscii team.models
models-IsAscii = ground arith

-- Outside ASCII the two differ.
long_s :
    auth_pool_model_filter_allows ascii_lower
      (some (auth_pool_model_filter ascii_lower (record team { models = (0x17F ∷ []) ∷ [] })))
      (codes "s")
    ≡ false
unfolding auth_pool_model_filter_allows auth_pool_model_filter trim_space text_eq ascii_lower
long_s = refl

long_s_found :
    auth_pool_allows_model equal_lower (record team { models = (0x17F ∷ []) ∷ [] }) (codes "s")
    ≡ true
unfolding auth_pool_allows_model trim_space text_eq ascii_lower
long_s_found = refl

auth_pool_model_filter_allows-auth_pool_allows_model_example :
    auth_pool_model_filter_allows ascii_lower
      (some (auth_pool_model_filter ascii_lower team))
      (codes " gpt-5")
    ≡ auth_pool_allows_model equal_lower team (codes " gpt-5")
auth_pool_model_filter_allows-auth_pool_allows_model_example =
    auth_pool_model_filter_allows-auth_pool_allows_model ascii_lower equal_lower
      equal_lower-FoldsAscii team (codes " gpt-5") asked-IsAscii models-IsAscii

gpt_allowed : auth_pool_allows_model equal_lower team (codes " gpt-5") ≡ true
unfolding auth_pool_allows_model trim_space text_eq ascii_lower
gpt_allowed = refl

team_row : pool_row (codes "team") database.pools ≡ some team
unfolding pool_row text_eq
team_row = refl

ensure_auth_pool_binding_access-auth_pool_visible_to_user_example :
    ensure_auth_pool_binding_access ascii_lower agrees world (some ann) (codes "team") ≡ (
      world,
      (if not true
          then err validation
          else if auth_pool_visible_to_user (with_users database.entitlements team) (some ann)
          then ok tt
          else err forbidden),
    )
ensure_auth_pool_binding_access-auth_pool_visible_to_user_example =
    ensure_auth_pool_binding_access-auth_pool_visible_to_user ascii_lower agrees world ann team
      team_row

team_exists : is_some (pool_row (trim_space (codes "team")) database.pools) ≡ true
unfolding trim_space pool_row text_eq
team_exists = refl

replace_auth_pool_access-AllOrNothing_example :
    AllOrNothing ascii_lower agrees database (trim_space (codes "team")) (
      replace_auth_pool_access ascii_lower agrees world
        (codes "team")
        (codes "selected_users")
        (pos 2 ∷ []))
replace_auth_pool_access-AllOrNothing_example =
    replace_auth_pool_access-AllOrNothing ascii_lower agrees world (codes "team")
      (codes "selected_users") (pos 2 ∷ []) team_exists

-- Ann binds her key, and then the pool is for Bob.
abbrev bound : World ascii_lower agrees
bound = (bind_api_key_to_auth_pool ascii_lower agrees world ann (codes "k1") (codes "team")).0

abbrev handed_over : World ascii_lower agrees
handed_over =
    (replace_auth_pool_access ascii_lower agrees bound (codes "team") (codes "selected_users")
      (pos 2 ∷ [])).0

-- Ann is no administrator and binds her own key, and the plugin lists no visibility: nothing is exempt.
abbrev nothing_exempt : Exempt
nothing_exempt = record { keys = λ key. false; pools = λ pool. false }

lists_team :
    (listed : List AuthPool)
    → ok (listed_team ∷ []) ≡ ok listed
    → All (OmitsOrExempt ascii_lower nothing_exempt.pools) listed
unfolding trim_space
lists_team listed h = rw (sym (ok-injective h)) (inl refl, tt)

run_of_two : Steps ascii_lower agrees nothing_exempt world handed_over
run_of_two =
    next world bound handed_over
      (binds world ann (codes "k1") (codes "team") (λ listed h. lists_team listed h) (λ n. refl))
      (next bound handed_over handed_over
        (replaces bound (codes "team") (codes "selected_users") (pos 2 ∷ [])) (stop handed_over))

ascii-KeepsNames : KeepsNames ascii_lower
unfolding trim_space ascii_lower
ascii-KeepsNames = (refl, refl)

Steps-AllAllowed_example : AllAllowed nothing_exempt handed_over.0
Steps-AllAllowed_example =
    Steps-AllAllowed ascii_lower agrees nothing_exempt ascii-KeepsNames world handed_over run_of_two
      tt

-- Ann's key was bound, and is no more.
nobody_bound : handed_over.0.bindings ≡ []
unfolding bind_api_key_to_auth_pool replace_auth_pool_access trim_space text_eq ascii_lower
nobody_bound = refl

ann_bound : local_auth_pool_id_for_api_key bound.0 (codes "k1") ≡ some (codes "team")
unfolding bind_api_key_to_auth_pool local_auth_pool_id_for_api_key trim_space text_eq same_int
ann_bound = refl
