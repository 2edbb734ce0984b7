-- ===== src/Scheduled/Worker.antt =====
-- apps/background/src/CronTasksWorker.ts: `onRequest`, with the guard against a second run. A run is
-- a promise: it starts at a request and settles at any later time, so the two are separate steps.
pub mod Overlap
use aws_access_bridge.Base.{
  ℕ, ◌+◌, ◌-◌, ◌*◌, ◌≤◌, String, Option, none, some, List, [], ◌∷◌, Bool, true, false, not, ◌==◌,
  ltb, nat_eq, keep_if, if◌then◌else◌,
}

abbrev pub cron_tasks_run_path : String
cron_tasks_run_path = "/run"

abbrev pub max_run_age_ms : ℕ
max_run_age_ms = 15 * 60 * 1000

-- `identity` stands for the object: two runs are `===` where it is the same.
pub record ActiveRun : Type 0 where
  pub identity : ℕ
  pub started_at : ℕ

pub record CronTasksWorker : Type 0 where
  pub current_run : Option ActiveRun
  -- The runs whose promise has not settled, the newest first, and the next object's identity.
  pub in_flight : List ActiveRun
  pub next_identity : ℕ

pub data Reply : Type 0 where
  not_found : Reply
  method_not_allowed : Reply
  already_running : Reply
  -- The request waits for the run.
  started : ActiveRun → Reply
  completed : Reply
  failed : Reply

abbrev pub start : ℕ → CronTasksWorker → Reply × CronTasksWorker
start now w =
    let run : ActiveRun = record { identity = w.next_identity; started_at = now } in
    (
      started run,
      record {
        current_run = some run;
        in_flight = run ∷ w.in_flight;
        next_identity = w.next_identity + 1;
      },
    )

-- Of a clock that was set back the difference is below 0 there, and 0 here: both are below the age.
abbrev pub start_unless : Option ActiveRun → ℕ → CronTasksWorker → Reply × CronTasksWorker
start_unless none now w = start now w
start_unless (some run) now w =
    if ltb (now - run.started_at) max_run_age_ms then (already_running, w) else start now w

unfoldable pub on_request : String → String → ℕ → CronTasksWorker → Reply × CronTasksWorker
on_request pathname method now w =
    if not (pathname == cron_tasks_run_path)
    then (not_found, w)
    else if not (method == "POST")
    then (method_not_allowed, w)
    else start_unless w.current_run now w

-- `if (this.currentRun === run) this.currentRun = undefined;`
abbrev pub cleared : ActiveRun → Option ActiveRun → Option ActiveRun
cleared run none = none
cleared run (some c) = if nat_eq c.identity run.identity then none else some c

-- The rest of the request of `run`, when its promise settles.
unfoldable pub settle : ActiveRun → Bool → CronTasksWorker → Reply × CronTasksWorker
settle run succeeded w = (
  if succeeded then completed else failed,
  record w {
    current_run = cleared run w.current_run;
    in_flight = keep_if (λ r. not (nat_eq r.identity run.identity)) w.in_flight;
  },
)

-- A Durable Object that has just been created.
abbrev pub new_worker : CronTasksWorker
new_worker = record { current_run = none; in_flight = []; next_identity = 0 }

-- What happens at the worker, and the clock before and after it.
pub data Steps : CronTasksWorker → ℕ → CronTasksWorker → ℕ → Type 0 where
  done : (w : CronTasksWorker) (now : ℕ) → Steps w now w now
  requested :
      {v : CronTasksWorker} {t : ℕ} (pathname method : String) (later : ℕ) (w : CronTasksWorker)
      (now : ℕ)
      → now ≤ later
      → Steps (on_request pathname method later w).1 later v t
      → Steps w now v t
  settled :
      {v : CronTasksWorker} {t : ℕ} (run : ActiveRun) (succeeded : Bool) (w : CronTasksWorker)
      (now : ℕ)
      → Steps (settle run succeeded w).1 now v t
      → Steps w now v t
