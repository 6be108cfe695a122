-- ===== src/Lib.antt =====
-- CPA Helper: models of the Go backend's core (backend/internal/app) and what is proved of them.
--
-- The backend stands between users with API keys and a CPA service that serves language models. A
-- request passes the admission gate, its model name is read from the body, and it is forwarded; the
-- usage that comes back is priced, charged to the user's balances, and a user without balance loses
-- the keys until an administrator or a new month restores them. Beside that, the keeper inspects the
-- accounts of the service, and the channel status sums up the pools of accounts.
--
-- Files, and the source each models:
--   Prelude        lists, texts as code points, integers: what the others share
--   Errors, Money  `AppError` and results (app.go); floats and rounding (pricing.go, quota.go)
--   Admission      model_proxy_admission.go. `acquire`, `free_slot` and `cancel_waiter` are the code
--                  under the lock; `run` is any sequence of requests, wake-ups, cancels and releases
--   Body           model_proxy_body.go. `scan_top_level_model` is the byte machine of
--                  scanTopLevelModel, `Documents` the JSON text it is compared with; `Reading` is
--                  readLimitedProxyBody
--   Pricing        pricing.go. `record_cost` is recordCost; `Table` has the rows of model_prices,
--                  their changes and syncLiteLLMPrices
--   Quota          quota.go, and the two key functions of auth_settings.go in `Remote`. A method is a
--                  function from the `World` (the rows, the configuration, the service) to the new
--                  one and a result; what was written stays where a method fails, as in the code
--   AuthPools      auth_pools.go: who may use a pool of accounts. `Database` has the tables and the
--                  plugin, `Access` is replaceAuthPoolAccess, `Bindings` binds keys to pools and asks
--                  for a key's pool, `Views` is what a user is shown; `Entitled` has the runs
--   ProxyTargets   auth_pool_proxy_targets.go; `Settings` has, from auth_pools.go, the views of the
--                  targets and the merge that keeps their stored keys
--   Usage          usage.go. `Statistics` has the summary, the trend, the distributions and the pages,
--                  `Scope` whose records a user is shown, `Redaction` what is hidden in a JSON text
--   Security       security/security.go: session tokens and masked secrets
--   SignIn         auth_settings.go, the limit on failed sign-ins
--   Keeper         codex_keeper.go, the type KeeperRunner: `mark_running`, `finish_run` and the two
--                  lock methods, over any interleaving (`Locks.Reachable`)
--   HeaderTimeout  model_proxy_cpa_config.go
--   ChannelStatus  channel_status.go, applyChannelAccountStats and what decides a pool's status;
--                  `Recent` is channelStatusRecentRequestBuffer, a ring of any length above 0
--
-- Numbers: counts and money are natural numbers, money in 1e-8 USD (balances) or 1e-12 USD (prices),
-- so that a float's rounding errors below that are not modelled (the conversion of a rounded amount to
-- an int64 gives the largest one past it, as on arm64); a Go int that may be negative is a ℤ.
-- Times are numbers. Loops are recursions over lists or counts: nothing runs on fuel.
--
-- Parameters: `unicode.ToLower`, `json.Unmarshal`, `strconv.ParseFloat`, the hash of a key, the month
-- of a time, `strings.EqualFold`, HMAC, base64 and JSON of a session, the CPA service and its plugin
-- for pools (records of calls on a state) and what its settings say.
--
-- Not modelled: HTTP handlers, SQL (a statement is taken to succeed and is the change of the rows that
-- it says), migrations, the frontend, cookies, the reading and rankings of usage, the creation of auth pools and
-- the synchronisation of their models, the inspection of an account, and everything that is only input
-- and output.
pub mod Prelude
pub mod Errors
pub mod Money
pub mod Admission
pub mod Body
pub mod Pricing
pub mod Quota
pub mod Keeper
pub mod HeaderTimeout
pub mod ChannelStatus
pub mod AuthPools
pub mod ProxyTargets
pub mod Usage
pub mod Security
pub mod SignIn
