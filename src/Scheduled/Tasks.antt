-- ===== src/Scheduled/Tasks.antt =====
-- Which tasks a tick runs, and what comes of them: apps/background/src/scheduled/TaskRegistry.ts and
-- `runScheduledTasks` of apps/background/src/CronTasksWorker.ts. The tasks of a phase run side by
-- side: the model has the calls and the settlements as events, in whatever order the promises settle.
pub mod Laws
use aws_access_bridge.Base.{
  ℕ, String, Option, none, some, List, [], ◌∷◌, ◌++◌, map, Bool, true, false, not, ◌&&◌, ◌||◌,
  nat_eq, keep_if, if◌then◌else◌,
}
use aws_access_bridge.Base.Errors.{ServiceError, Result, ok, err, plain_error}

pub data TaskName : Type 0 where
  credential_cache_refresh audit_log_cleanup background_task_run_pruning cost_data_collection
        resource_inventory_collection :
      TaskName

pub record TaskDefinition : Type 0 where
  pub phase : ℕ
  pub make : TaskName
  pub collection : Bool

abbrev pub cron_task_definitions : List TaskDefinition
cron_task_definitions =
    record { phase = 1; make = credential_cache_refresh; collection = false }
    ∷ record { phase = 2; make = audit_log_cleanup; collection = false }
    ∷ record { phase = 2; make = background_task_run_pruning; collection = false }
    ∷ record { phase = 2; make = cost_data_collection; collection = true }
    ∷ record { phase = 2; make = resource_inventory_collection; collection = true }
    ∷ []

unfoldable pub tasks_for_phase : ℕ → Bool → List TaskName
tasks_for_phase phase collections =
    map (λ d. d.make)
      (keep_if (λ d. nat_eq d.phase phase && (collections || not d.collection))
        cron_task_definitions)

-- The steps of CollectionWorkflow.ts.
abbrev pub collection_steps : List TaskName
collection_steps = cost_data_collection ∷ resource_inventory_collection ∷ []

abbrev pub phases : Bool → List (List TaskName)
phases workflow = tasks_for_phase 1 true ∷ tasks_for_phase 2 (not workflow) ∷ []

-- What is seen of a run: a task's `handle` is called, and its promise is settled.
pub data Event : Type 0 where
  started settled : TaskName → Event

-- `outcome` is what the promise of a task settles to, and `settling` the order in which those of a
-- phase do, given the order in which they are started.
module _ (outcome : TaskName → Result (Unit {0})) (settling : List TaskName → List TaskName) where
  abbrev pub failure_of : Result (Unit {0}) → List ServiceError
  failure_of (ok done) = []
  failure_of (err e) = e ∷ []

  -- The rejected results, in the order of the tasks.
  unfoldable pub failures_among : List TaskName → List ServiceError
  failures_among [] = []
  failures_among (task ∷ tasks) = failure_of (outcome task) ++ failures_among tasks

  -- `Promise.allSettled` over the calls of `handle`: all tasks are started before one is seen to settle.
  unfoldable pub settle_all : List TaskName → List ServiceError × List Event
  settle_all tasks = (failures_among tasks, map started tasks ++ map settled (settling tasks))

  unfoldable pub run_phases : List (List TaskName) → List ServiceError × List Event
  run_phases [] = ([], [])
  run_phases (tasks ∷ rest) =
      let (failures, events) = settle_all tasks in
      let (others, more) = run_phases rest in (failures ++ others, events ++ more)

  -- `describe` is the text of the failures.
  abbrev pub throw_failures : (List ServiceError → String) → List ServiceError → Result (Unit {0})
  throw_failures describe [] = ok tt
  throw_failures describe (e ∷ es) = err (plain_error (describe (e ∷ es)))

  -- `create` is what the creation of the workflow's instance settles to, where the binding is there.
  unfoldable pub run_scheduled_tasks :
      (List ServiceError → String) → Option (Result (Unit {0})) → Result (Unit {0}) × List Event
  run_scheduled_tasks describe none =
      let (failures, events) = run_phases (phases false) in
      (throw_failures describe failures, events)
  run_scheduled_tasks describe (some (err e)) = (err e, [])
  run_scheduled_tasks describe (some (ok created)) =
      let (failures, events) = run_phases (phases true) in
      (throw_failures describe failures, events)
