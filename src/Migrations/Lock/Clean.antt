-- ===== src/Migrations/Lock/Clean.antt =====
-- What a clean check says, and what is found after a write.
use mathlib.Core.List.{append-nil}
use aws_access_bridge.Base.{
  String, ◌≡◌, inl, inr, refl, ap, Option, none, some, List, [], ◌∷◌, ◌++◌, map, Bool, true, false,
  not, ◌&&◌, ◌||◌, ◌==◌, eq_iff, eq_refl, Bool-cases, none-keep_if, append-eq-nil, map-eq-nil,
  not-false, All-imp, All-and, All, if◌then◌else◌,
}
use aws_access_bridge.Migrations.Names.{is_subsumed}
use aws_access_bridge.Migrations.Lock.{
  MigrationFile, Entries, MigrationLock, Finding, entry, keys, names_of, has, not_locked, kept_from,
  rebuilt, entries_in, computed_baseline, bad_names, duplicate_prefixes, edited_findings, same_name,
  check_migrations, is_orphan, is_edited, recorded_differs, orphan_findings, out_of_order_findings,
  baseline_findings,
}
use aws_access_bridge.Migrations.Lock.Entries.{entry-has}
use aws_access_bridge.Migrations.Lock.Write.{AreDistinct, rewritten}
use aws_access_bridge.Migrations.Lock.Rebuilt.{
  built-edited, built-not_locked, built-orphans, built-out_of_order,
}

same_name-eq : (a b : Option String) → same_name a b ≡ true → a ≡ b
same_name-eq none none h = refl
same_name-eq (some a) (some b) h = ap some ((eq_iff a b).0 h)
same_name-eq none (some b) h = cc
same_name-eq (some a) none h = cc

if-empty : (b : Bool) (x : Finding) → (if b then [] else x ∷ []) ≡ [] → b ≡ true
if-empty true x h = refl
if-empty false x h = cc

-- A recorded digest of a file that is not edited.
not_edited :
    (d digest : String) (subsumed : Bool)
    → (recorded_differs (some d) digest && not subsumed) ≡ false
    → subsumed ≡ false
    → d ≡ digest
not_edited d digest true h e = cc
not_edited d digest false h e = elim (Bool-cases (d == digest)) [
  | inl k ↦ (eq_iff d digest).0 k
  | inr k ↦ cc (rw k at h)
]

on_disk :
    (there subsumed : Bool) → not (there || subsumed) ≡ false → subsumed ≡ false → there ≡ true
on_disk true subsumed h e = refl
on_disk false true h e = cc
on_disk false false h e = cc

-- The entries that a sort must keep.
abbrev pub KeepsEntries : (Entries → Entries) → Type 0
KeepsEntries f = (n : String) (es : Entries) → entry n (f es) ≡ entry n es

not_locked-none : (fs : List MigrationFile) → not_locked fs [] ≡ fs
not_locked-none [] = refl
not_locked-none (f ∷ fs) = ap (λ l. f ∷ l) (not_locked-none fs)

kept_from-none :
    (computed : Option String) (fs : List MigrationFile) (kept : Entries)
    → kept_from computed [] fs kept ≡ kept
unfolding kept_from entry
kept_from-none computed [] kept = refl
kept_from-none computed (f ∷ fs) kept = kept_from-none computed fs kept

same_name_refl : (o : Option String) → same_name o o ≡ true
same_name_refl none = refl
same_name_refl (some s) = eq_refl s

module _ (in_locale_order : Entries → Entries) (keeps : KeepsEntries in_locale_order)
    (files : List MigrationFile) where
  rebuilt-reads :
      (lock : Option MigrationLock) (n : String)
      → entry n (rebuilt in_locale_order files lock).migrations
        ≡ entry n (rewritten files (entries_in lock))
  rebuilt-reads none n =
      rw (not_locked-none files, kept_from-none (computed_baseline files) files []) refl
  rebuilt-reads (some lock) n = keeps n (rewritten files lock.migrations)

  rebuilt-baseline :
      (lock : Option MigrationLock)
      → baseline_findings files (some (rebuilt in_locale_order files lock)) ≡ []
  rebuilt-baseline none = rw (same_name_refl (computed_baseline files)) refl
  rebuilt-baseline (some lock) = rw (same_name_refl (computed_baseline files)) refl

  -- Where no two files have one name, the check of the lock that `--write` leaves, over any lock or
  -- none, finds bad names, duplicate prefixes and the same edited files as before, and nothing
  -- else: no baseline, unlocked, orphan or out-of-order finding.
  pub check_migrations-rebuilt :
      (lock : Option MigrationLock)
      → AreDistinct files
      → (check_migrations in_locale_order files
          (some (rebuilt in_locale_order files lock))
          []).findings
        ≡ bad_names (names_of files)
          ++ bad_names (keys (rebuilt in_locale_order files lock).migrations)
          ++ duplicate_prefixes
              (names_of files ++ keys (rebuilt in_locale_order files lock).migrations)
          ++ edited_findings files (entries_in lock)
  unfolding check_migrations
  check_migrations-rebuilt lock d =
      let built = (rebuilt in_locale_order files lock).migrations in
      let locked = entries_in lock in
      let reads = rebuilt-reads lock in
      rw
        (
          rebuilt-baseline lock,
          built-edited files locked built reads d,
          built-not_locked files locked built reads d,
          built-orphans files locked built reads d,
          built-out_of_order files locked built reads d,
        )
        (simp append-nil)

module _ (in_locale_order : Entries → Entries) (files : List MigrationFile)
    (lock : MigrationLock) where
  -- A file of which the lock has an entry, with the file's digest where the file is after the
  -- baseline.
  abbrev pub IsLocked : MigrationFile → Type 0
  IsLocked f =
      (d : String) × (entry f.name lock.migrations ≡ some d)
      × (is_subsumed f.name (computed_baseline files) ≡ false → d ≡ f.digest)

  locked :
      (f : MigrationFile)
      → not (has f.name (keys lock.migrations)) ≡ false
      → is_edited files lock.migrations f ≡ false
      → IsLocked f
  locked f there same =
      let (d, e) =
        entry-has f.name lock.migrations (not-false (has f.name (keys lock.migrations)) there) in
      (d, e, not_edited d f.digest (is_subsumed f.name (computed_baseline files)) (rw e at same))

  -- A check without a finding says that every file on disk is in the lock, with its digest where it
  -- is after the baseline, that every entry after the baseline has its file on disk, and that the
  -- recorded baseline is the newest squash on disk.
  pub check_migrations-clean :
      (check_migrations in_locale_order files (some lock) []).findings ≡ []
      → All IsLocked files
        × All
            (λ n. is_subsumed n (computed_baseline files) ≡ false → has n (names_of files) ≡ true)
            (keys lock.migrations)
        × (lock.baseline ≡ computed_baseline files)
  unfolding check_migrations edited_findings orphan_findings
  check_migrations-clean h =
      let (h, late) = append-eq-nil _ (out_of_order_findings files lock.migrations) h in
      let (h, orphans) = append-eq-nil _ (orphan_findings files lock.migrations) h in
      let (h, unlocked_files) = append-eq-nil _ (map _ (not_locked files lock.migrations)) h in
      let (h, edits) = append-eq-nil _ (edited_findings files lock.migrations) h in
      let (h, base) = append-eq-nil _ (baseline_findings files (some lock)) h in
      (
        All-imp _ _ files (λ f (there, same). locked f there same)
            (All-and _ _ files
              (none-keep_if (λ f. not (has f.name (keys lock.migrations))) files
                (map-eq-nil _ (not_locked files lock.migrations) unlocked_files))
              (none-keep_if (is_edited files lock.migrations) files (map-eq-nil _ _ edits))),
        All-imp _ _ (keys lock.migrations)
            (λ n there incremental.
              on_disk (has n (names_of files)) (is_subsumed n (computed_baseline files)) there
                incremental)
            (none-keep_if (is_orphan files) (keys lock.migrations) (map-eq-nil _ _ orphans)),
        same_name-eq lock.baseline (computed_baseline files) (if-empty _ _ base),
      )
