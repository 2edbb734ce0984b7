-- ===== src/Scheduled.antt =====
-- The scheduled work: apps/background/src/CronTasksWorker.ts and the registry and the pruning of
-- apps/background/src/scheduled.
pub mod Worker
pub mod Tasks
pub mod Pruning
mod Tests
