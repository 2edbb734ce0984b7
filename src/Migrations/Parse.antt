-- ===== src/Migrations/Parse.antt =====
-- scripts/migrations/lock-check.ts: `parseLock`.
use aws_access_bridge.Base.{
  String, Option, none, some, List, [], ◌∷◌, ◌++◌, Bool, true, false, ◌&&◌, leb,
}
use aws_access_bridge.Base.Json.{
  Json, natural, string, object, Properties, empty, property, property_of,
}
use aws_access_bridge.Arn.{strip_prefix}
use aws_access_bridge.Migrations.Names.{is_migration_name}
use aws_access_bridge.Migrations.Lock.{
  Entries, MigrationLock, Finding, found, absent, malformed, lock_version,
}

abbrev digest_prefix : String
digest_prefix = "sha256:"

abbrev is_some : Option String → Bool
is_some none = false
is_some (some s) = true

abbrev is_digest : Json → Bool
is_digest (string s) = is_some (strip_prefix digest_prefix s)
is_digest other = false

abbrev is_version : Option Json → Bool
is_version (some (natural n)) = leb n lock_version && leb lock_version n
is_version other = false

abbrev is_baseline : Option Json → Bool
is_baseline none = true
is_baseline (some (string s)) = is_migration_name s
is_baseline (some other) = false

abbrev unless : Bool → Finding → List Finding
unless true f = []
unless false f = f ∷ []

unfoldable bad_digests : Properties → List Finding
bad_digests empty = []
bad_digests (property k v rest) = unless (is_digest v) (found malformed k) ++ bad_digests rest

abbrev text_of : Json → String
text_of (string s) = s
text_of other = ""

unfoldable entries_of : Properties → Entries
entries_of empty = []
entries_of (property k v rest) = (k, text_of v) ∷ entries_of rest

abbrev baseline_text : Option Json → Option String
baseline_text (some (string s)) = some s
baseline_text other = none

abbrev lock_of : List Finding → Option Json → Properties → Option MigrationLock × List Finding
lock_of [] recorded entries = (
  some (record {
    version = lock_version;
    baseline = baseline_text recorded;
    migrations = entries_of entries;
  }),
  [],
)
lock_of (f ∷ fs) recorded entries = (none, f ∷ fs)

abbrev parse_migrations :
    List Finding → Option Json → Option Json → Option MigrationLock × List Finding
parse_migrations findings recorded (some (object entries)) =
    lock_of (findings ++ bad_digests entries) recorded entries
parse_migrations findings recorded other = (none, findings ++ found malformed "migrations" ∷ [])

abbrev parse_value : Option Json → Option MigrationLock × List Finding
parse_value (some (object fields)) =
    parse_migrations
      (unless (is_version (property_of "version" fields)) (found malformed "version")
        ++ unless (is_baseline (property_of "baseline" fields)) (found malformed "baseline"))
      (property_of "baseline" fields) (property_of "migrations" fields)
parse_value other = (none, found malformed "" ∷ [])

-- `json_parse` gives none where `JSON.parse` throws.
unfoldable pub parse_lock :
    (String → Option Json) → Option String → Option MigrationLock × List Finding
unfolding bad_digests entries_of property_of is_migration_name strip_prefix
parse_lock json_parse none = (none, found absent "" ∷ [])
parse_lock json_parse (some raw) = parse_value (json_parse raw)
