-- ===== src/Scheduled/Pruning/Laws.antt =====
-- A pruning task ends, and what it leaves.
use aws_access_bridge.Base.{
  ℕ, zero, suc, ◌+◌, ◌-◌, ◌*◌, ◌≤◌, ◌<◌, ◌≡◌, refl, sym, ap, ◌∙◌, Option, some, List, [], ◌∷◌, Bool,
  true, false, not, ltb, leb, keep_if, keep_if-take, keep_if-skip, if-true, if-false, subst,
  keep_if-apart, not-true, leb→le, leb→lt, length, Bool-cases, inl, inr, arith,
}
use aws_access_bridge.Scheduled.Pruning.{
  delete_older_than_batch, prune_from, handle_pruning_task, one_more, passed_over,
}

pruned :
    {Row : Type 0} (m n : ℕ) (xs ys : List Row)
    → m ≡ n
    → xs ≡ ys
    → ◌≡◌ {A = Option (ℕ × List Row)} (some (m, xs)) (some (n, ys))
pruned m n xs ys e f = cc

module _ {Row : Type 0} (time_of : Row → ℕ) (cutoff : ℕ) where
  abbrev pub is_old : Row → Bool
  is_old row = ltb (time_of row) cutoff

  abbrev pub old : List Row → List Row
  old = keep_if is_old

  abbrev pub recent : List Row → List Row
  recent = keep_if (λ row. not (is_old row))

  -- What a batch is, of the rows that it started from.
  record IsBatch (size : ℕ) (rows : List Row) (b : ℕ × List Row) : Type 0 where
    counted : b.0 + length (old b.1) ≡ length (old rows)
    kept : recent b.1 ≡ recent rows
    bounded : b.0 ≤ size
    finished : b.0 < size → b.1 ≡ recent rows

  not_recent : (row : Row) → is_old row ≡ true → not (is_old row) ≡ false
  not_recent row e = rw e refl

  is_recent : (row : Row) → is_old row ≡ false → not (is_old row) ≡ true
  is_recent row e = rw e refl

  one_more-IsBatch :
      (size : ℕ) (row : Row) (rows : List Row) (b : ℕ × List Row)
      → is_old row ≡ true
      → IsBatch size rows b
      → IsBatch (suc size) (row ∷ rows) (one_more time_of row b)
  one_more-IsBatch size row rows (n, left) e b =
      let skip = keep_if-skip (λ r. not (is_old r)) row rows (not_recent row e) in
      record {
        counted = omega (arith, b.counted, ap length (keep_if-take is_old row rows e));
        kept = b.kept ∙ sym skip;
        bounded = omega (arith, b.bounded);
        finished = λ h. b.finished (omega arith) ∙ sym skip;
      }

  passed_over-IsBatch :
      (size : ℕ) (row : Row) (rows : List Row) (b : ℕ × List Row)
      → is_old row ≡ false
      → IsBatch size rows b
      → IsBatch size (row ∷ rows) (passed_over time_of row b)
  passed_over-IsBatch size row rows (n, left) e b =
      let take : (rs : List Row) → recent (row ∷ rs) ≡ row ∷ recent rs =
        λ rs. keep_if-take (λ r. not (is_old r)) row rs (is_recent row e) in
      let skip : (rs : List Row) → old (row ∷ rs) ≡ old rs = λ rs. keep_if-skip is_old row rs e in
      record {
        counted = ap (λ rs. n + length rs) (skip left) ∙ b.counted ∙ sym (ap length (skip rows));
        kept = take left ∙ ap (λ rs. row ∷ rs) b.kept ∙ sym (take rows);
        bounded = b.bounded;
        finished = λ h. ap (λ rs. row ∷ rs) (b.finished h) ∙ sym (take rows);
      }

  delete_older_than_batch-IsBatch :
      (size : ℕ) (rows : List Row)
      → IsBatch size rows (delete_older_than_batch time_of cutoff size rows)
  unfolding delete_older_than_batch
  delete_older_than_batch-IsBatch zero rows = record {
    counted = omega arith;
    kept = refl;
    bounded = omega arith;
    finished = λ h. absurd (omega arith);
  }
  delete_older_than_batch-IsBatch (suc size) [] = record {
    counted = refl;
    kept = refl;
    bounded = omega arith;
    finished = λ h. refl;
  }
  delete_older_than_batch-IsBatch (suc size) (row ∷ rows) = elim (Bool-cases (is_old row)) [
    | inl e ↦
        subst (IsBatch (suc size) (row ∷ rows)) (sym (if-true _ _ _ e))
          (one_more-IsBatch size row rows _ e (delete_older_than_batch-IsBatch size rows))
    | inr e ↦ subst (IsBatch (suc size) (row ∷ rows)) (sym (if-false _ _ _ e)) (
        passed_over-IsBatch (suc size) row rows _ e
          (delete_older_than_batch-IsBatch (suc size) rows))
  ]

  old-le-length : (rows : List Row) → length (old rows) ≤ length rows
  old-le-length [] = omega arith
  old-le-length (row ∷ rows) = elim (Bool-cases (is_old row)) [
    | inl e ↦ rw (keep_if, e) (omega (arith, old-le-length rows))
    | inr e ↦ rw (keep_if, e) (omega (arith, old-le-length rows))
  ]

  none_old : (rows : List Row) → length (old (recent rows)) ≡ 0
  none_old rows =
      ap length (keep_if-apart (λ row. not (is_old row)) is_old rows (λ row. not-true (is_old row)))

  prune_from-recent :
      (fuel size total : ℕ) (rows : List Row)
      → 0 < size
      → length (old rows) < fuel
      → prune_from time_of fuel cutoff size total rows
        ≡ some (total + length (old rows), recent rows)
  unfolding prune_from
  prune_from-recent zero size total rows positive enough = absurd (omega arith)
  prune_from-recent (suc fuel) size total rows positive enough =
      let b = delete_older_than_batch-IsBatch size rows in
      let deleted = (delete_older_than_batch time_of cutoff size rows).0 in
      let left = (delete_older_than_batch time_of cutoff size rows).1 in
      let count : deleted + length (old left) ≡ length (old rows) = b.counted in
      elim (Bool-cases (leb size deleted)) [
        | inl e ↦
            let more : size ≤ deleted = leb→le size deleted e in
            rw e (
              prune_from-recent fuel size (total + deleted) left positive (omega arith)
              ∙ pruned (total + deleted + length (old left)) (total + length (old rows))
                  (recent left) (recent rows) (omega arith) b.kept)
        | inr e ↦
            let last = b.finished (leb→lt size deleted e) in
            let none_left : length (old left) ≡ 0 =
              ap (λ rs. length (old rs)) last ∙ none_old rows in
            rw e (
              pruned (total + deleted) (total + length (old rows)) left (recent rows) (omega arith)
                last)
      ]

-- Where the batch size is not 0, a pruning task ends, and it has deleted exactly the rows that are
-- older than the retention, in any number of batches, with their number as the count it reports.
pub handle_pruning_task-recent :
    {Row : Type 0} (time_of : Row → ℕ) (now retention_days size : ℕ) (rows : List Row)
    → 0 < size
    → handle_pruning_task time_of now retention_days size rows
      ≡ some (
        length (old time_of (now - retention_days * 86400) rows),
        recent time_of (now - retention_days * 86400) rows,
      )
unfolding handle_pruning_task
handle_pruning_task-recent time_of now retention_days size rows positive =
    let cutoff = now - retention_days * 86400 in
    prune_from-recent time_of cutoff (suc (length rows)) size 0 rows positive
      (omega (arith, old-le-length time_of cutoff rows))
    ∙ pruned (0 + length (old time_of cutoff rows)) (length (old time_of cutoff rows))
        (recent time_of cutoff rows) (recent time_of cutoff rows) (omega arith) refl
