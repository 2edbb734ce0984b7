-- ===== src/Migrations.antt =====
-- The lock of the database migrations: scripts/migrations/lock-check.ts.
pub mod Names
pub mod Lock
pub mod Parse
