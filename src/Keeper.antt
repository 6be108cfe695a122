-- ===== src/Keeper.antt =====
-- backend/internal/app/codex_keeper.go: `KeeperRunner`, which decides which runs may overlap and which
-- account a run may work on. The methods that only log, and the goroutine of the daemon, are left out.
-- A method's body between `Lock` and `Unlock` is one function.
pub mod Modes
pub mod Frames
pub mod Locks
pub mod Names
mod Tests
use cpa_helper_s.Prelude.{
  ℕ, ◌+◌, ◌-◌, ◌≡◌, refl, Bool, true, false, not, ◌&&◌, ◌||◌, Option, none, some, List, [], ◌∷◌,
  ◌++◌, leb, ltb, ◌==◌, if◌then◌else◌, drop, length,
}
use cpa_helper_s.Prelude.Text.{Text, codes, text_eq, is_empty, trim_space}
use cpa_helper_s.Errors.{Result, ok, err, validation, conflict, require, ◌>>=◌, ◌>>◌}

-- The modes that the program names.
pub data Mode : Type 0 where
  daemon once conditional accounts : Mode

-- `keeperModeOrder`.
unfoldable pub mode_order : Mode → ℕ
mode_order daemon = 0
mode_order once = 1
mode_order conditional = 2
mode_order accounts = 3

abbrev pub same_mode : Mode → Mode → Bool
same_mode a b = mode_order a == mode_order b

unfoldable pub keeper_modes_conflict : Mode → Mode → Bool
keeper_modes_conflict once daemon = true
keeper_modes_conflict daemon once = true
keeper_modes_conflict daemon daemon = true
keeper_modes_conflict once once = true
keeper_modes_conflict conditional conditional = true
keeper_modes_conflict accounts accounts = true
keeper_modes_conflict _ _ = false

pub data RunState : Type 0 where
  idle running failed completed : RunState

-- `stats` is kept as it is given.
pub record KeeperRunner (Stats : Type 0) : Type 0 where
  pub is_running : Bool
  pub state : RunState
  pub detail : Text
  pub mode : Option Mode
  pub running_modes : List Mode
  pub in_flight_auths : List (Text × Mode)
  pub last_started_at : Option ℕ
  pub last_finished_at : Option ℕ
  pub stats : Stats
  pub logs : List Text

-- What `executeKeeperRunWithOptions` returns: the statistics, and a detail or an error's message.
pub data RunResult : Type 0 where
  finished : Text → RunResult
  stopped : Text → RunResult

abbrev pub has_mode : Mode → List Mode → Bool
has_mode m [] = false
has_mode m (x ∷ xs) = same_mode x m || has_mode m xs

-- `delete(r.runningModes, mode)`.
abbrev pub delete_mode : Mode → List Mode → List Mode
delete_mode m [] = []
delete_mode m (x ∷ xs) = if same_mode x m then delete_mode m xs else x ∷ delete_mode m xs

abbrev pub any_conflict : List Mode → Mode → Bool
any_conflict [] m = false
any_conflict (x ∷ xs) m = keeper_modes_conflict x m || any_conflict xs m

abbrev pub insert_mode : Mode → List Mode → List Mode
insert_mode m [] = m ∷ []
insert_mode m (x ∷ xs) =
    if leb (mode_order m) (mode_order x) then m ∷ x ∷ xs else x ∷ insert_mode m xs

-- `runningModeListLocked`: the keys of the map by `keeperModeOrder`, in which no two modes agree.
unfoldable pub running_mode_list : List Mode → List Mode
running_mode_list [] = []
running_mode_list (m ∷ ms) = insert_mode m (running_mode_list ms)

abbrev pub status_mode : List Mode → Option Mode
status_mode [] = none
status_mode (m ∷ ms) = some m

abbrev pub running_detail : List Mode → Text
running_detail [] = codes "尚未运行"
running_detail (accounts ∷ []) = codes "正在刷新 Codex 账号"
running_detail (conditional ∷ []) = codes "正在按条件刷新 Codex 账号"
running_detail (daemon ∷ []) = codes "正在巡检 Codex 账号"
running_detail (once ∷ []) = codes "正在巡检 Codex 账号"
running_detail (m ∷ n ∷ ms) = codes "正在运行多个 Codex Keeper 任务"

abbrev pub in_flight : Text → List (Text × Mode) → Bool
in_flight name [] = false
in_flight name ((n, m) ∷ ls) = text_eq n name || in_flight name ls

-- `delete(r.inFlightAuths, name)`.
abbrev pub delete_auth : Text → List (Text × Mode) → List (Text × Mode)
delete_auth name [] = []
delete_auth name ((n, m) ∷ ls) =
    if text_eq n name then delete_auth name ls else (n, m) ∷ delete_auth name ls

abbrev pub max_in_memory_logs : ℕ
max_in_memory_logs = 300

-- `appendKeeperLog`.
unfoldable pub append_keeper_log : List Text → Text → List Text
append_keeper_log logs line =
    let all = logs ++ line ∷ [] in
    if ltb max_in_memory_logs (length all) then drop (length all - max_in_memory_logs) all else all

abbrev pub mentions : Text → List Text → Bool
mentions name [] = false
mentions name (n ∷ ns) = text_eq n name || mentions name ns

-- The loop of `normalizeOptionalKeeperAuthNames`, with the names it has.
unfoldable pub normalize_names : List Text → List Text → Result (List Text)
unfolding trim_space
normalize_names [] result = ok result
normalize_names (item ∷ items) result =
    if is_empty (trim_space item)
    then err validation
    else normalize_names items
        (if mentions (trim_space item) result then result else result ++ trim_space item ∷ [])

unfoldable pub normalize_optional_keeper_auth_names : List Text → Result (List Text)
unfolding normalize_names
normalize_optional_keeper_auth_names raw = normalize_names raw []

unfoldable pub normalize_keeper_auth_names : List Text → Result (List Text)
unfolding normalize_optional_keeper_auth_names
normalize_keeper_auth_names raw = do
  result ← normalize_optional_keeper_auth_names raw
  require (not (length result == 0)) validation
  ok result

module _ {Stats : Type 0} (no_stats : Stats) where
  abbrev pub new_keeper_runner : KeeperRunner Stats
  new_keeper_runner = record {
    is_running = false;
    state = idle;
    detail = codes "尚未运行";
    mode = none;
    running_modes = [];
    in_flight_auths = [];
    last_started_at = none;
    last_finished_at = none;
    stats = no_stats;
    logs = [];
  }

  unfoldable pub mark_running : KeeperRunner Stats → Mode → ℕ → KeeperRunner Stats × Bool
  unfolding running_mode_list
  mark_running r mode now =
      if any_conflict r.running_modes mode
      then (r, false)
      else (let modes = mode ∷ r.running_modes in
          (
            record r {
              running_modes = modes;
              is_running = true;
              state = running;
              detail = running_detail (running_mode_list modes);
              mode = status_mode (running_mode_list modes);
              last_started_at = some now;
              last_finished_at = none;
              stats = no_stats;
            },
            true,
          ))

  abbrev pub end_state : KeeperRunner Stats → Mode → RunResult → KeeperRunner Stats
  end_state r mode (stopped message) = record r { state = failed; detail = message }
  end_state r mode (finished detail) = record r {
    mode = some mode;
    state = completed;
    detail = detail;
  }

  -- `runAccounts` after `executeKeeperRunWithOptions`.
  unfoldable pub finish_run : KeeperRunner Stats → Mode → ℕ → Stats → RunResult → KeeperRunner Stats
  unfolding running_mode_list
  finish_run r mode now stats result =
      let modes = delete_mode mode r.running_modes in
      let list = running_mode_list modes in
      let s = record r {
        running_modes = modes;
        is_running = ltb 0 (length list);
        last_finished_at = some now;
        stats = stats;
      } in
      if ltb 0 (length list)
      then record s { state = running; detail = running_detail list; mode = status_mode list }
      else end_state s mode result

  unfoldable pub start_once : KeeperRunner Stats → ℕ → Result (KeeperRunner Stats)
  unfolding mark_running
  start_once r now =
      if (mark_running r once now).1 then ok (mark_running r once now).0 else err conflict

  -- The names that the run is given come with the runner.
  unfoldable pub start_accounts :
      KeeperRunner Stats → List Text → ℕ → Result (KeeperRunner Stats × List Text)
  unfolding mark_running normalize_keeper_auth_names
  start_accounts r auth_names now = do
    names ← normalize_keeper_auth_names auth_names
    require (mark_running r accounts now).1 conflict
    ok ((mark_running r accounts now).0, names)

  unfoldable pub try_lock_auth_name : KeeperRunner Stats → Mode → Text → KeeperRunner Stats × Bool
  unfolding trim_space
  try_lock_auth_name r mode name =
      let n = trim_space name in
      if is_empty n
      then (r, true)
      else if in_flight n r.in_flight_auths
      then (r, false)
      else (record r { in_flight_auths = (n, mode) ∷ r.in_flight_auths }, true)

  unfoldable pub unlock_auth_name : KeeperRunner Stats → Text → KeeperRunner Stats
  unfolding trim_space
  unlock_auth_name r name =
      let n = trim_space name in
      if is_empty n then r else record r { in_flight_auths = delete_auth n r.in_flight_auths }
