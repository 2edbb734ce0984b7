-- ===== src/Migrations/Names.antt =====
-- The names of the migrations: scripts/migrations/lock-check.ts. Names are compared by their
-- characters, as JavaScript compares ASCII texts.
use Prim.Native.Char.{Char, code}
use Prim.Native.String.{[], ◌∷◌, compare}
use text.Mathlib.Text.{is_le}
use aws_access_bridge.Base.{
  ℕ, zero, suc, String, Option, none, some, List, [], ◌∷◌, Bool, true, false, not, ◌&&◌, ◌||◌, ◌==◌,
  leb, nat_eq, if◌then◌else◌,
}
use aws_access_bridge.Arn.{strip_digits}

-- `[a-z0-9]`
abbrev is_name_character : Char → Bool
is_name_character c =
    (leb b'a' (code c) && leb (code c) b'z') || (leb b'0' (code c) && leb (code c) b'9')

-- `[a-z0-9]+(?:_[a-z0-9]+)*\.sql`, where `begun` says whether the segment has a character yet. Only
-- an extension can follow a segment that neither a character nor `_` continues.
unfoldable is_snake_case : Bool → String → Bool
is_snake_case begun [] = false
is_snake_case begun (c ∷ s) =
    let rest = is_snake_case (is_name_character c) s in
    (begun && (c ∷ s) == ".sql")
    || ((is_name_character c || (begun && nat_eq (code c) b'_')) && rest)

abbrev is_migration_rest : Option String → Bool
is_migration_rest none = false
is_migration_rest (some []) = false
is_migration_rest (some (c ∷ s)) = nat_eq (code c) b'_' && is_snake_case false s

-- `MIGRATION_NAME.test(name)`
unfoldable pub is_migration_name : String → Bool
unfolding is_snake_case strip_digits
is_migration_name name = is_migration_rest (strip_digits 4 name)

abbrev is_squash_rest : Option String → Bool
is_squash_rest none = false
is_squash_rest (some s) = s == "_squash.sql"

-- `SQUASH_NAME.test(name)`
unfoldable pub is_squash_name : String → Bool
unfolding strip_digits
is_squash_name name = is_squash_rest (strip_digits 4 name)

abbrev first_characters : ℕ → String → String
first_characters zero s = ""
first_characters (suc n) [] = ""
first_characters (suc n) (c ∷ s) = c ∷ first_characters n s

unfoldable pub prefix_of : String → Option String
prefix_of name = if is_migration_name name then some (first_characters 4 name) else none

-- `a < b` and `a <= b` of texts
abbrev pub text_lt : String → String → Bool
text_lt a b = not (is_le (compare b a))

abbrev pub text_le : String → String → Bool
text_le a b = is_le (compare a b)

abbrev pub later_of : Option String → String → Option String
later_of none name = some name
later_of (some highest) name = if text_lt highest name then some name else some highest

abbrev latest_from : (String → Bool) → Option String → List String → Option String
latest_from p highest [] = highest
latest_from p highest (name ∷ names) =
    latest_from p (if p name then later_of highest name else highest) names

unfoldable pub baseline_of : List String → Option String
baseline_of names = latest_from is_squash_name none names

-- The newest entry of a lock: the cutoff of `checkMigrations`.
unfoldable pub newest_of : List String → Option String
newest_of names = latest_from (λ name. true) none names

unfoldable pub is_subsumed : String → Option String → Bool
is_subsumed name none = false
is_subsumed name (some baseline) = text_le name baseline
