-- ===== src/Migrations/Lock/Tests.antt =====
-- A squash and two later migrations, of which one was edited and one deleted after they were locked.
use aws_access_bridge.Base.{
  String, ◌≡◌, refl, Option, none, some, List, [], ◌∷◌, ◌++◌, true, false, All,
}
use aws_access_bridge.Base.Json.{Json, natural, string, object, property, empty}
use aws_access_bridge.Migrations.Names.{
  is_migration_name, is_squash_name, prefix_of, baseline_of, newest_of, is_subsumed,
}
use aws_access_bridge.Migrations.Parse.{parse_lock}
use aws_access_bridge.Migrations.Lock.{
  MigrationFile, MigrationLock, Entries, found, edited, orphan, entry, keys, put, kept_from,
  add_missing, names_of, rebuilt, bad_names, duplicate_prefixes, edited_findings, orphan_findings,
  out_of_order_findings, check_migrations, computed_baseline, has,
}
use aws_access_bridge.Migrations.Lock.Clean.{
  IsLocked, check_migrations-clean, check_migrations-rebuilt,
}

abbrev file : String → String → MigrationFile
file name digest = record { name = name; digest = digest }

abbrev files : List MigrationFile
files =
    file "0030_squash.sql" "sha256:new"
    ∷ file "0031_b.sql" "sha256:bb"
    ∷ file "0033_d.sql" "sha256:dd"
    ∷ []

abbrev old_lock : MigrationLock
old_lock = record {
  version = 1;
  baseline = some "0030_squash.sql";
  migrations =
      ("0030_squash.sql", "sha256:old")
      ∷ ("0031_b.sql", "sha256:b")
      ∷ ("0032_c.sql", "sha256:c")
      ∷ [];
}

abbrev as_written : Entries → Entries
as_written es = es

-- The squash may change. The edited file is found, and the deleted one.
two_findings :
    edited_findings files old_lock.migrations ++ orphan_findings files old_lock.migrations
    ≡ found edited "0031_b.sql" ∷ found orphan "0032_c.sql" ∷ []
unfolding edited_findings orphan_findings entry is_subsumed baseline_of is_squash_name
two_findings = refl

-- After a write only the edited file is found.
orphan_forgotten :
    (check_migrations as_written files
      (some (rebuilt as_written files (some old_lock)))
      []).findings
    ≡ found edited "0031_b.sql" ∷ []
unfolding check_migrations edited_findings orphan_findings out_of_order_findings bad_names
    duplicate_prefixes entry put kept_from add_missing is_subsumed baseline_of is_squash_name
    newest_of prefix_of is_migration_name
orphan_forgotten = refl

check_migrations-rebuilt_example :
    (check_migrations as_written files
      (some (rebuilt as_written files (some old_lock)))
      []).findings
    ≡ bad_names (names_of files)
      ++ bad_names (keys (rebuilt as_written files (some old_lock)).migrations)
      ++ duplicate_prefixes
          (names_of files ++ keys (rebuilt as_written files (some old_lock)).migrations)
      ++ edited_findings files old_lock.migrations
check_migrations-rebuilt_example =
    check_migrations-rebuilt as_written (λ n es. refl) files (some old_lock)
      (refl, (refl, (refl, tt)))

abbrev good_lock : MigrationLock
good_lock = record {
  version = 1;
  baseline = some "0030_squash.sql";
  migrations =
      ("0030_squash.sql", "sha256:old")
      ∷ ("0031_b.sql", "sha256:bb")
      ∷ ("0033_d.sql", "sha256:dd")
      ∷ [];
}

check_migrations-clean_example :
    All (IsLocked as_written files good_lock) files
    × All
        (λ n. is_subsumed n (computed_baseline files) ≡ false → has n (names_of files) ≡ true)
        (keys good_lock.migrations)
    × (good_lock.baseline ≡ computed_baseline files)
unfolding check_migrations edited_findings orphan_findings out_of_order_findings bad_names
    duplicate_prefixes entry is_subsumed baseline_of is_squash_name newest_of prefix_of
    is_migration_name
check_migrations-clean_example = check_migrations-clean as_written files good_lock refl

abbrev parsed : String → Option Json
parsed raw = some (
    object (
      property "version" (natural 1)
        (property "migrations" (object (property "0031_b.sql" (string "sha256:bb") empty)) empty)))

lock_parses : parse_lock parsed (some "{}") ≡ (
  some (record { version = 1; baseline = none; migrations = ("0031_b.sql", "sha256:bb") ∷ [] }),
  [],
)
unfolding parse_lock
lock_parses = refl
