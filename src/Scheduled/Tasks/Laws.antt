-- ===== src/Scheduled/Tasks/Laws.antt =====
-- A tick runs every task, phase after phase, whatever fails.
use mathlib.Core.List.{Perm, perm-replicate, append-nil}
use aws_access_bridge.Base.{
  String, ◌≡◌, refl, ◌↔◌, none, some, List, [], ◌∷◌, ◌++◌, map, append-eq-nil, true, false, All,
}
use aws_access_bridge.Base.Errors.{ServiceError, Result, ok, err}
use aws_access_bridge.Scheduled.Tasks.{
  TaskName, started, settled, tasks_for_phase, credential_cache_refresh, audit_log_cleanup,
  background_task_run_pruning, cost_data_collection, resource_inventory_collection, failure_of,
  failures_among, settle_all, run_phases, throw_failures, run_scheduled_tasks,
}

module _ (outcome : TaskName → Result (Unit {0})) (settling : List TaskName → List TaskName) where
  abbrev pub Returns : TaskName → Type 0
  Returns task = outcome task ≡ ok tt

  failures_none :
      (r : Result (Unit {0})) (fs : List ServiceError)
      → (failure_of outcome settling r ++ fs ≡ []) ↔ ((r ≡ ok tt) × (fs ≡ []))
  failures_none (ok done) fs = (λ h. (refl, h), λ h. h.1)
  failures_none (err e) fs = (λ h. cc, λ h. cc h.0)

  failures_among_iff :
      (tasks : List TaskName) → (failures_among outcome settling tasks ≡ []) ↔ All Returns tasks
  unfolding failures_among
  failures_among_iff [] = (λ h. tt, λ h. refl)
  failures_among_iff (task ∷ tasks) =
      let this = failures_none (outcome task) (failures_among outcome settling tasks) in
      let rest = failures_among_iff tasks in
      (
        λ h. let (returned, others) = this.0 h in (returned, rest.0 others),
        λ h. this.1 (h.0, rest.1 h.1),
      )

  throw_failures-ok :
      (describe : List ServiceError → String) (fs : List ServiceError)
      → (throw_failures outcome settling describe fs ≡ ok tt) ↔ (fs ≡ [])
  throw_failures-ok describe [] = (λ h. refl, λ h. refl)
  throw_failures-ok describe (e ∷ es) = (λ h. cc, λ h. cc)

  append_nil_iff : (xs ys : List ServiceError) → (xs ++ (ys ++ []) ≡ []) ↔ ((xs ≡ []) × (ys ≡ []))
  append_nil_iff xs ys = (
    λ h.
        let (first, second) = append-eq-nil xs (ys ++ []) h in
        (first, (append-eq-nil ys [] second).0),
    λ h. rw (h.0, h.1) refl,
  )

  TaskName-IsSet : IsSet TaskName
  TaskName-IsSet = hlevel

  alone :
      (task : TaskName) → Perm (settling (task ∷ [])) (task ∷ []) → settling (task ∷ []) ≡ task ∷ []
  alone task p = (perm-replicate TaskName-IsSet 1 task).0 p

  two_phases_iff :
      (describe : List ServiceError → String) (xs ys : List TaskName)
      → (throw_failures outcome settling describe (run_phases outcome settling (xs ∷ ys ∷ [])).0
          ≡ ok tt)
        ↔ (All Returns xs × All Returns ys)
  unfolding run_phases settle_all
  two_phases_iff describe xs ys =
      let thrown =
        throw_failures-ok describe
          (failures_among outcome settling xs ++ (failures_among outcome settling ys ++ [])) in
      let both =
        append_nil_iff (failures_among outcome settling xs) (failures_among outcome settling ys) in
      let first = failures_among_iff xs in
      let second = failures_among_iff ys in
      (
        λ h. let (a, b) = both.0 (thrown.0 h) in (first.0 a, second.0 b),
        λ h. thrown.1 (both.1 (first.1 h.0, second.1 h.1)),
      )

  -- Whichever tasks fail, and in whatever order the promises of a phase settle: without the workflow a
  -- tick starts the refresh of the credentials alone, and when that has settled the four other tasks, all
  -- of them before one is seen to settle; each of these settles, once; and the tick returns exactly where
  -- all five tasks do. Where the workflow is bound and its instance is created, the same holds of the
  -- three tasks that the workflow does not run. Where the creation fails, the tick fails with that
  -- error and starts no task.
  pub run_scheduled_tasks-phases :
      ((tasks : List TaskName) → Perm (settling tasks) tasks)
      → (describe : List ServiceError → String)
      → ((later : List TaskName) × Perm later (
            audit_log_cleanup ∷ background_task_run_pruning ∷ cost_data_collection
            ∷ resource_inventory_collection ∷ [])
          × ((run_scheduled_tasks outcome settling describe none).1
              ≡ started credential_cache_refresh
                ∷ settled credential_cache_refresh
                ∷ started audit_log_cleanup
                ∷ started background_task_run_pruning
                ∷ started cost_data_collection
                ∷ started resource_inventory_collection
                ∷ map settled later)
          × (((run_scheduled_tasks outcome settling describe none).0 ≡ ok tt)
              ↔ All Returns (
                  credential_cache_refresh ∷ audit_log_cleanup ∷ background_task_run_pruning
                  ∷ cost_data_collection ∷ resource_inventory_collection ∷ [])))
        × ((later : List TaskName) × Perm later
              (audit_log_cleanup ∷ background_task_run_pruning ∷ [])
            × ((run_scheduled_tasks outcome settling describe (some (ok tt))).1
                ≡ started credential_cache_refresh
                  ∷ settled credential_cache_refresh
                  ∷ started audit_log_cleanup
                  ∷ started background_task_run_pruning
                  ∷ map settled later)
            × (((run_scheduled_tasks outcome settling describe (some (ok tt))).0 ≡ ok tt)
                ↔ All Returns (
                    credential_cache_refresh ∷ audit_log_cleanup ∷ background_task_run_pruning
                    ∷ [])))
        × ((e : ServiceError)
            → run_scheduled_tasks outcome settling describe (some (err e)) ≡ (err e, []))
  unfolding run_scheduled_tasks run_phases settle_all tasks_for_phase
  run_scheduled_tasks-phases order describe =
      let first = alone credential_cache_refresh (order (credential_cache_refresh ∷ [])) in
      let all = two_phases_iff describe (tasks_for_phase 1 true) (tasks_for_phase 2 true) in
      let some_of = two_phases_iff describe (tasks_for_phase 1 true) (tasks_for_phase 2 false) in
      (
        (
          settling (tasks_for_phase 2 true),
          order (tasks_for_phase 2 true),
          rw (first, append-nil (map settled (settling (tasks_for_phase 2 true)))) refl,
          (λ h. let ((a, u), b) = all.0 h in (a, b), λ h. all.1 ((h.0, tt), h.1)),
        ),
        (
          settling (tasks_for_phase 2 false),
          order (tasks_for_phase 2 false),
          rw (first, append-nil (map settled (settling (tasks_for_phase 2 false)))) refl,
          (λ h. let ((a, u), b) = some_of.0 h in (a, b), λ h. some_of.1 ((h.0, tt), h.1)),
        ),
        λ e. refl,
      )
