-- ===== src/Migrations/Lock.antt =====
-- scripts/migrations/lock-check.ts: the check of the migrations on disk against the lock, and the
-- lock as `--write` leaves it. Of a finding the model keeps the kind and the subject, without the
-- prose. A record of texts is the list of its entries, in their order.
pub mod Entries
pub mod Write
pub mod Rebuilt
pub mod Clean
mod Tests
use aws_access_bridge.Base.{
  ℕ, String, Option, none, some, List, [], ◌∷◌, ◌++◌, map, Bool, true, false, not, ◌&&◌, ◌||◌, ◌==◌,
  any, keep_if, leb, length, if◌then◌else◌,
}
use aws_access_bridge.Base.Json.{
  Json, natural, string, object, Properties, empty, property, property_of,
}
use aws_access_bridge.Arn.{strip_prefix}
use aws_access_bridge.Migrations.Names.{
  is_migration_name, prefix_of, baseline_of, newest_of, is_subsumed, text_lt,
}

abbrev pub lock_version : ℕ
lock_version = 1

pub record MigrationFile : Type 0 where
  pub name : String
  pub digest : String

abbrev pub Entries : Type 0
Entries = List (String × String)

pub record MigrationLock : Type 0 where
  pub version : ℕ
  pub baseline : Option String
  pub migrations : Entries

pub data FindingKind : Type 0 where
  absent malformed baseline edited unlocked orphan name duplicate_prefix out_of_order : FindingKind

pub record Finding : Type 0 where
  pub kind : FindingKind
  pub subject : String

pub record CheckResult : Type 0 where
  pub findings : List Finding
  pub missing : List MigrationFile
  pub updated : Option MigrationLock

abbrev pub found : FindingKind → String → Finding
found kind subject = record { kind = kind; subject = subject }

-- `migrations[name]`
unfoldable pub entry : String → Entries → Option String
entry n [] = none
entry n ((k, v) ∷ rest) = let other = entry n rest in if k == n then some v else other

abbrev pub keys : Entries → List String
keys = map (λ e. e.0)

abbrev pub names_of : List MigrationFile → List String
names_of = map (λ f. f.name)

-- `set.has(name)`
abbrev pub has : String → List String → Bool
has n = any (λ m. m == n)

unfoldable pub bad_names : List String → List Finding
bad_names names = map (found name) (keep_if (λ n. not (is_migration_name n)) names)

unfoldable distinct : List String → List String → List String
distinct seen [] = []
distinct seen (n ∷ ns) = let rest = distinct (n ∷ seen) ns in if has n seen then rest else n ∷ rest

abbrev has_prefix : String → String → Bool
has_prefix prefix n = elim (prefix_of n) [ none ↦ false | some p ↦ p == prefix ]

abbrev prefixes_of : List String → List String
prefixes_of [] = []
prefixes_of (n ∷ ns) = elim (prefix_of n) [ none ↦ prefixes_of ns | some p ↦ p ∷ prefixes_of ns ]

unfoldable pub duplicate_prefixes : List String → List Finding
unfolding distinct
duplicate_prefixes names =
    let different = distinct [] names in
    map (found duplicate_prefix) (
      keep_if (λ p. leb 2 (length (keep_if (has_prefix p) different)))
        (distinct [] (prefixes_of different)))

abbrev pub recorded_differs : Option String → String → Bool
recorded_differs none digest = false
recorded_differs (some recorded) digest = not (recorded == digest)

module _ (files : List MigrationFile) where
  abbrev pub computed_baseline : Option String
  computed_baseline = baseline_of (names_of files)

  abbrev pub is_edited : Entries → MigrationFile → Bool
  is_edited locked f =
      recorded_differs (entry f.name locked) f.digest && not (is_subsumed f.name computed_baseline)

  unfoldable pub edited_findings : Entries → List Finding
  edited_findings locked = map (λ f. found edited f.name) (keep_if (is_edited locked) files)

  abbrev pub not_locked : Entries → List MigrationFile
  not_locked locked = keep_if (λ f. not (has f.name (keys locked))) files

  abbrev pub is_orphan : String → Bool
  is_orphan n = not (has n (names_of files) || is_subsumed n computed_baseline)

  unfoldable pub orphan_findings : Entries → List Finding
  orphan_findings locked = map (found orphan) (keep_if is_orphan (keys locked))

  abbrev pub is_late : Option String → Entries → String → Bool
  is_late none locked n = false
  is_late (some cutoff) locked n = text_lt n cutoff && not (has n (keys locked))

  unfoldable pub out_of_order_findings : Entries → List Finding
  out_of_order_findings locked =
      map (found out_of_order) (keep_if (is_late (newest_of (keys locked)) locked) (names_of files))

abbrev pub same_name : Option String → Option String → Bool
same_name none none = true
same_name (some a) (some b) = a == b
same_name a b = false

abbrev pub entries_in : Option MigrationLock → Entries
entries_in none = []
entries_in (some lock) = lock.migrations

-- What needs a lock to compare with.
abbrev pub baseline_findings : List MigrationFile → Option MigrationLock → List Finding
baseline_findings files none = []
baseline_findings files (some lock) =
    if same_name lock.baseline (computed_baseline files) then [] else found baseline "baseline" ∷ []

abbrev pub missing_of : List MigrationFile → Option MigrationLock → List MigrationFile
missing_of files none = []
missing_of files (some lock) = not_locked files lock.migrations

abbrev pub is_malformed : Finding → Bool
is_malformed f = elim f.kind [ malformed ↦ true | _ ↦ false ]

-- `map.set(name, digest)`: an entry that is there keeps its place.
unfoldable pub put : String → String → Entries → Entries
put n digest [] = (n, digest) ∷ []
put n digest ((k, v) ∷ rest) =
    let other = put n digest rest in if k == n then (k, digest) ∷ rest else (k, v) ∷ other

abbrev pub is_the_baseline : String → Option String → Bool
is_the_baseline n none = false
is_the_baseline n (some b) = n == b

abbrev pub keep_entry : Option String → MigrationFile → Option String → Entries → Entries
keep_entry computed f none kept = kept
keep_entry computed f (some recorded) kept =
    put f.name (if is_the_baseline f.name computed then f.digest else recorded) kept

unfoldable pub kept_from : Option String → Entries → List MigrationFile → Entries → Entries
kept_from computed locked [] kept = kept
kept_from computed locked (f ∷ fs) kept =
    kept_from computed locked fs (keep_entry computed f (entry f.name locked) kept)

unfoldable pub add_missing : List MigrationFile → Entries → Entries
add_missing [] kept = kept
add_missing (f ∷ fs) kept = add_missing fs (put f.name f.digest kept)

-- `in_locale_order` sorts the entries by `localeCompare`. A lock that reads the same is returned as
-- it is, which is the same value.
module _ (in_locale_order : Entries → Entries) (files : List MigrationFile) where
  abbrev pub rebuilt : Option MigrationLock → MigrationLock
  rebuilt none = record {
    version = lock_version;
    baseline = computed_baseline files;
    migrations = add_missing files [];
  }
  rebuilt (some lock) = record {
    version = lock_version;
    baseline = computed_baseline files;
    migrations = in_locale_order (
        add_missing (not_locked files lock.migrations)
          (kept_from (computed_baseline files) lock.migrations files []));
  }

  unfoldable pub build_updated : Option MigrationLock → Bool → Option MigrationLock
  build_updated lock is_refused = if is_refused then none else some (rebuilt lock)

  unfoldable pub check_migrations : Option MigrationLock → List Finding → CheckResult
  check_migrations lock lock_findings =
      let locked = entries_in lock in
      let missing = missing_of files lock in
      record {
        findings =
            lock_findings
            ++ bad_names (names_of files)
            ++ bad_names (keys locked)
            ++ duplicate_prefixes (names_of files ++ keys locked)
            ++ baseline_findings files lock
            ++ edited_findings files locked
            ++ map (λ f. found unlocked f.name) missing
            ++ orphan_findings files locked
            ++ out_of_order_findings files locked;
        missing = missing;
        updated = build_updated lock (any is_malformed lock_findings);
      }
