-- ===== src/Scheduled/Tests.antt =====
-- A worker with a run that hangs, a table that is pruned in three batches, and a tick with a failing task.
use mathlib.Core.List.{Perm, reverse, reverse_perm}
use aws_access_bridge.Base.{
  ℕ, String, map, ◌+◌, ◌≡◌, ◌↔◌, refl, none, some, List, [], ◌∷◌, length, arith, All, ◌<◌, ◌∷◌, ◌-◌,
  ◌*◌,
}
use aws_access_bridge.Base.Errors.{Result, ServiceError, ok, err, internal_server, plain_error}
use aws_access_bridge.Scheduled.Worker.{
  ActiveRun, CronTasksWorker, new_worker, cron_tasks_run_path, max_run_age_ms, already_running,
  on_request, Steps, done, requested,
}
use aws_access_bridge.Scheduled.Worker.Overlap.{IsSpaced, Steps-IsSpaced}
use aws_access_bridge.Scheduled.Pruning.{handle_pruning_task, prune_from, delete_older_than_batch}
use aws_access_bridge.Scheduled.Pruning.Laws.{old, recent, handle_pruning_task-recent}
use aws_access_bridge.Scheduled.Tasks.{
  TaskName, credential_cache_refresh, audit_log_cleanup, background_task_run_pruning,
  cost_data_collection, resource_inventory_collection, started, settled, failures_among, settle_all,
  run_phases, run_scheduled_tasks, tasks_for_phase,
}
use aws_access_bridge.Scheduled.Tasks.Laws.{Returns, run_scheduled_tasks-phases}

abbrev run_at : ℕ → ℕ → ActiveRun
run_at identity started_at = record { identity = identity; started_at = started_at }

-- The first run hangs from 1000 on; a request at 2000 is refused, one at 901000 starts a second run,
-- and then the first one fails.
abbrev two_runs : CronTasksWorker
two_runs = record {
  current_run = some (run_at 1 901000);
  in_flight = run_at 1 901000 ∷ run_at 0 1000 ∷ [];
  next_identity = 2;
}

overlapping : Steps new_worker 0 two_runs 901000
unfolding on_request
overlapping = requested "/run" "POST" 1000 _ _ (omega arith) (
    requested "/run" "POST" 2000 _ _ (omega arith)
      (requested "/run" "POST" 901000 _ _ (omega arith) (done _ _)))

Steps-IsSpaced_example :
    IsSpaced (run_at 1 901000 ∷ run_at 0 1000 ∷ [])
    × All
        (λ r.
          901000 < r.started_at + max_run_age_ms
          → on_request cron_tasks_run_path "POST" 901000 two_runs ≡ (already_running, two_runs))
        (run_at 1 901000 ∷ run_at 0 1000 ∷ [])
Steps-IsSpaced_example = Steps-IsSpaced 0 901000 two_runs overlapping

abbrev times : List ℕ
times = 5 ∷ 90000 ∷ 7 ∷ 86401 ∷ 9 ∷ []

handle_pruning_task-recent_example :
    handle_pruning_task (λ t. t) 172800 1 2 times
    ≡ some (
      length (old (λ t. t) (172800 - 1 * 86400) times),
      recent (λ t. t) (172800 - 1 * 86400) times,
    )
handle_pruning_task-recent_example =
    handle_pruning_task-recent (λ t. t) 172800 1 2 times (omega arith)

three_gone : handle_pruning_task (λ t. t) 172800 1 2 times ≡ some (3, 90000 ∷ 86401 ∷ [])
unfolding handle_pruning_task prune_from delete_older_than_batch
three_gone = refl

abbrev fails_at : TaskName → Result (Unit {0})
fails_at audit_log_cleanup = err (internal_server "down")
fails_at task = ok tt

abbrev one_failed : List ServiceError → String
one_failed failures = "1 scheduled task(s) failed"

run_scheduled_tasks-phases_example :
    ((later : List TaskName) × Perm later (
        audit_log_cleanup ∷ background_task_run_pruning ∷ cost_data_collection
        ∷ resource_inventory_collection ∷ [])
      × ((run_scheduled_tasks fails_at reverse one_failed none).1
          ≡ started credential_cache_refresh
            ∷ settled credential_cache_refresh
            ∷ started audit_log_cleanup
            ∷ started background_task_run_pruning
            ∷ started cost_data_collection
            ∷ started resource_inventory_collection
            ∷ map settled later)
      × (((run_scheduled_tasks fails_at reverse one_failed none).0 ≡ ok tt)
          ↔ All (Returns fails_at reverse) (
              credential_cache_refresh ∷ audit_log_cleanup ∷ background_task_run_pruning
              ∷ cost_data_collection ∷ resource_inventory_collection ∷ [])))
    × ((later : List TaskName) × Perm later (audit_log_cleanup ∷ background_task_run_pruning ∷ [])
        × ((run_scheduled_tasks fails_at reverse one_failed (some (ok tt))).1
            ≡ started credential_cache_refresh
              ∷ settled credential_cache_refresh
              ∷ started audit_log_cleanup
              ∷ started background_task_run_pruning
              ∷ map settled later)
        × (((run_scheduled_tasks fails_at reverse one_failed (some (ok tt))).0 ≡ ok tt)
            ↔ All
                (Returns fails_at reverse)
                (credential_cache_refresh ∷ audit_log_cleanup ∷ background_task_run_pruning ∷ [])))
    × ((e : ServiceError)
        → run_scheduled_tasks fails_at reverse one_failed (some (err e)) ≡ (err e, []))
run_scheduled_tasks-phases_example =
    run_scheduled_tasks-phases fails_at reverse reverse_perm one_failed

-- A task that fails stops no other.
others_run : run_scheduled_tasks fails_at (λ tasks. tasks) one_failed (some (ok tt)) ≡ (
  err (plain_error "1 scheduled task(s) failed"),
  started credential_cache_refresh
      ∷ settled credential_cache_refresh
      ∷ started audit_log_cleanup
      ∷ started background_task_run_pruning
      ∷ settled audit_log_cleanup
      ∷ settled background_task_run_pruning
      ∷ [],
)
unfolding run_scheduled_tasks run_phases settle_all failures_among tasks_for_phase
others_run = refl
