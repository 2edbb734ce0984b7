-- ===== src/Collect/Batch.antt =====
-- `handleScheduledTask` of apps/background/src/scheduled/AbstractCollectionTask.ts, the budget of
-- CronTask.ts beside it, and packages/backend-data/src/dao/DataCollectionConfigDAO.ts. How the keys of a
-- principal are resolved, what a collection returns, which stamps fail and which error is the daily
-- limit of the database are parameters. The rows due come in their order from the caller.
pub mod Due
use aws_access_bridge.Base.{
  ℕ, ◌+◌, ◌*◌, String, Option, none, some, List, [], ◌∷◌, map, Bool, true, false, ◌&&◌, ◌==◌, ltb,
  length, if◌then◌else◌,
}
use aws_access_bridge.Base.Errors.{ServiceError, Result, ok, err, ◌>>=◌, plain_error}
use aws_access_bridge.Arn.{get_account_id_from_arn}

-- A row of `data_collection_config`.
pub record Config : Type 0 where
  pub principal_arn : String
  pub collection_type : String
  pub last_collected_at : ℕ
  pub last_attempt_at : ℕ
  pub enabled : Bool

abbrev pub is_row_of : String → String → Config → Bool
is_row_of arn type c = c.principal_arn == arn && c.collection_type == type

unfoldable pub update_last_attempt_time : ℕ → String → String → List Config → List Config
update_last_attempt_time now arn type =
    map (λ c. if is_row_of arn type c then record c { last_attempt_at = now } else c)

unfoldable pub update_last_collected_time : ℕ → String → String → List Config → List Config
update_last_collected_time now arn type =
    map (λ c. if is_row_of arn type c then record c { last_collected_at = now } else c)

-- The condition of `getPrincipalArnsNeedingCollection`.
unfoldable pub is_due : String → ℕ → Config → Bool
is_due type older_than c =
    c.collection_type == type && c.enabled && ltb c.last_attempt_at older_than

pub record Tally : Type 0 where
  pub succeeded_items : ℕ
  pub failed_accounts : ℕ
  pub configs : List Config

-- The loop goes on, or stops until the daily limit is reset.
pub data Progress : Type 0 where
  going : Tally → Progress
  paused : ℕ → Tally → Progress

pub record Collection (Keys : Type 0) : Type 0 where
  pub collection_type : String
  pub resolve_leaf_credentials : String → Result Keys
  pub collect : String → Keys → String → Result ℕ
  -- How the stamp of a principal's attempt, and of its collection, fails where it does.
  pub attempt_fault : String → Option ServiceError
  pub collected_fault : String → Option ServiceError
  -- When the daily limit is reset, where the error says that it is spent.
  pub is_d1_daily_limit_error : ServiceError → Option ℕ
  pub now : ℕ

abbrev pub statements_per_account : ℕ
statements_per_account = 12

abbrev pub one_more : Tally → Tally
one_more t = record t { failed_accounts = t.failed_accounts + 1 }

module _ {Keys : Type 0} (k : Collection Keys) where
  abbrev pub attempted : String → Tally → Tally
  attempted arn t = record t {
    configs = update_last_attempt_time k.now arn k.collection_type t.configs;
  }

  abbrev pub collected_at : String → Tally → Tally
  collected_at arn t = record t {
    configs = update_last_collected_time k.now arn k.collection_type t.configs;
  }

  -- `try { await updateLastAttemptTime } catch { log }`
  abbrev pub try_attempt : Option ServiceError → String → Tally → Tally
  try_attempt none arn t = attempted arn t
  try_attempt (some e) arn t = t

  -- The outer catch.
  abbrev pub fail_or_pause : Option ℕ → String → Tally → Progress
  fail_or_pause (some resets_at) arn t = paused resets_at t
  fail_or_pause none arn t = going (try_attempt (k.attempt_fault arn) arn (one_more t))

  abbrev pub stamp_collected : Option ServiceError → String → Tally → Progress
  stamp_collected none arn t = going (collected_at arn t)
  stamp_collected (some e) arn t = fail_or_pause (k.is_d1_daily_limit_error e) arn t

  abbrev pub after_attempt : Option ServiceError → ℕ → String → Tally → Progress
  after_attempt (some e) collected arn t = going (one_more t)
  after_attempt none collected arn t =
      if ltb 0 collected
      then stamp_collected (k.collected_fault arn) arn (attempted arn t)
      else going (attempted arn t)

  abbrev pub after_collection : Result ℕ → String → Tally → Progress
  after_collection (err e) arn t = fail_or_pause (k.is_d1_daily_limit_error e) arn t
  after_collection (ok collected) arn t =
      after_attempt (k.attempt_fault arn) collected arn
        (record t { succeeded_items = t.succeeded_items + collected })

  unfoldable pub collect_principal : String → Result ℕ
  collect_principal arn = k.resolve_leaf_credentials arn >>= λ credentials.
      get_account_id_from_arn arn >>= λ account_id. k.collect arn credentials account_id

  abbrev pub and_then : Progress → (Tally → Progress) → Progress
  and_then (paused resets_at t) next = paused resets_at t
  and_then (going t) next = next t

  unfoldable pub collect_batch : List String → Tally → Progress
  unfolding collect_principal
  collect_batch [] t = going t
  collect_batch (arn ∷ arns) t =
      and_then (after_collection (collect_principal arn) arn t) (collect_batch arns)

  -- `assertSubrequestBudget`, then the loop; `remaining` is what is left of the invocation's budget.
  unfoldable pub handle_scheduled_task : ℕ → List String → List Config → Result Progress
  unfolding collect_batch
  handle_scheduled_task remaining arns configs =
      if ltb remaining (length arns * statements_per_account)
      then err (plain_error "The accounts stay due for the next cron.")
      else ok (
          collect_batch arns
            (record { succeeded_items = 0; failed_accounts = 0; configs = configs }))
