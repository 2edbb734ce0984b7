-- ===== src/Scheduled/Pruning.antt =====
-- apps/background/src/scheduled/AbstractPruningTask.ts over `deleteOlderThanBatch` of
-- packages/backend-data/src/dao/AuditLogDAO.ts and BackgroundTaskRunDAO.ts. A table is the list of
-- its rows in the order in which the subquery meets them; `time_of` is the column that it compares.
pub mod Laws
use aws_access_bridge.Base.{
  ℕ, zero, suc, ◌+◌, ◌-◌, ◌*◌, Option, none, some, List, [], ◌∷◌, Bool, ltb, leb, length,
  if◌then◌else◌,
}

module _ {Row : Type 0} (time_of : Row → ℕ) where
  abbrev one_more : Row → ℕ × List Row → ℕ × List Row
  one_more row (n, rows) = (n + 1, rows)

  abbrev passed_over : Row → ℕ × List Row → ℕ × List Row
  passed_over row (n, rows) = (n, row ∷ rows)

  -- How many rows it deletes, and the rows that it leaves.
  unfoldable pub delete_older_than_batch : ℕ → ℕ → List Row → ℕ × List Row
  delete_older_than_batch cutoff_timestamp zero rows = (0, rows)
  delete_older_than_batch cutoff_timestamp (suc size) [] = (0, [])
  delete_older_than_batch cutoff_timestamp (suc size) (row ∷ rows) =
      let deleted = one_more row (delete_older_than_batch cutoff_timestamp size rows) in
      let kept = passed_over row (delete_older_than_batch cutoff_timestamp (suc size) rows) in
      if ltb (time_of row) cutoff_timestamp then deleted else kept

  -- The batches, with fuel: `none` is a task that is still deleting.
  unfoldable pub prune_from : ℕ → ℕ → ℕ → ℕ → List Row → Option (ℕ × List Row)
  prune_from zero cutoff batch_size total rows = none
  prune_from (suc fuel) cutoff batch_size total rows =
      let (deleted, left) = delete_older_than_batch cutoff batch_size rows in
      let again = prune_from fuel cutoff batch_size (total + deleted) left in
      if leb batch_size deleted then again else some (total + deleted, left)

  -- A cutoff before 1970 is below 0 there and 0 here: either deletes nothing.
  unfoldable pub handle_pruning_task : ℕ → ℕ → ℕ → List Row → Option (ℕ × List Row)
  handle_pruning_task now retention_days batch_size rows =
      prune_from (suc (length rows)) (now - retention_days * 86400) batch_size 0 rows
