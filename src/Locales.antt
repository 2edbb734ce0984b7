-- ===== src/Locales.antt =====
-- scripts/i18n/locale-checks.ts: the flattened bundles of translations and their comparison with the
-- bundle of the base locale. Of a finding the model keeps the kind, the subject and whether it is
-- advisory, without the prose.
pub mod Calls
pub mod Run
mod Names
mod Laws
mod Advice
mod Sites
mod Bundles
mod Passing
mod Literals
mod Tests
use Prim.Native.String
use aws_access_bridge.Base.{
  ℕ, String, Option, none, some, List, [], ◌∷◌, ◌++◌, map, Bool, true, false, not, ◌&&◌, ◌||◌, ◌==◌,
  any, keep_if, length, nat_eq, is_set, if◌then◌else◌,
}
use aws_access_bridge.Base.Json.{Json, string, object, Properties, empty, property}

pub data FindingKind : Type 0 where
  malformed missing extra empty_value placeholder undeclared_directory undeclared_tag
        tag_list_mismatch no_base_locale unknown_key default_disagrees dynamic_key unused_key :
      FindingKind

pub record Finding : Type 0 where
  pub kind : FindingKind
  pub subject : String
  pub advisory : Bool

abbrev pub found : FindingKind → String → Finding
found kind subject = record { kind = kind; subject = subject; advisory = false }

abbrev pub advised : FindingKind → String → Finding
advised kind subject = record { kind = kind; subject = subject; advisory = true }

-- `new Set(names).has(name)`
abbrev pub has : String → List String → Bool
has n = any (λ m. m == n)

-- A map of dotted keys, in the order in which they were set.
abbrev pub FlatBundle : Type 0
FlatBundle = List (String × Json)

abbrev pub base_locale : String
base_locale = "en"

abbrev pub keys : FlatBundle → List String
keys = map (λ e. e.0)

-- `bundle.has(key)`
abbrev pub has_key : String → FlatBundle → Bool
has_key key bundle = has key (keys bundle)

-- `bundle.get(key)`
unfoldable pub value_at : String → FlatBundle → Option Json
value_at key [] = none
value_at key ((k, v) ∷ rest) = let other = value_at key rest in if k == key then some v else other

-- `out.set(key, value)`
unfoldable pub set_value : String → Json → FlatBundle → FlatBundle
set_value key value [] = (key, value) ∷ []
set_value key value ((k, v) ∷ rest) =
    let other = set_value key value rest in if k == key then (k, value) ∷ rest else (k, v) ∷ other

abbrev pub key_path : String → String → String
key_path prefix key = if is_set prefix then String.◌++◌ prefix (String.◌++◌ "." key) else key

unfoldable mutual
  pub flatten_properties : Properties → String → FlatBundle → FlatBundle
  flatten_properties empty prefix out = out
  flatten_properties (property key value rest) prefix out =
      flatten_properties rest prefix (flatten_value value (key_path prefix key) out)

  pub flatten_value : Json → String → FlatBundle → FlatBundle
  flatten_value (object properties) path out = flatten_properties properties path out
  flatten_value other path out = set_value path other out

-- `none` where it throws.
unfoldable pub flatten : Json → Option FlatBundle
unfolding flatten_properties
flatten (object properties) = some (flatten_properties properties "" [])
flatten other = none

abbrev pub is_usable : Json → Bool
is_usable (string s) = is_set s
is_usable other = false

-- The keys are mapped to findings by every caller.
unfoldable pub empty_values : FlatBundle → List String
empty_values bundle = map (λ e. e.0) (keep_if (λ e. not (is_usable e.1)) bundle)

abbrev pub distinct : List String → List String → List String
distinct seen [] = []
distinct seen (n ∷ ns) = let rest = distinct (n ∷ seen) ns in if has n seen then rest else n ∷ rest

-- `expected.some((token, index) => token !== actual[index])`
unfoldable pub differs_from : List String → List String → Bool
differs_from [] actual = false
differs_from (token ∷ expected) [] = true
differs_from (token ∷ expected) (other ∷ actual) =
    not (token == other) || differs_from expected actual

abbrev pub in_tag : String → String → String
in_tag tag key = String.◌++◌ tag (String.◌++◌ ":" key)

abbrev pub missing_findings : String → FlatBundle → FlatBundle → List Finding
missing_findings tag base bundle =
    map (λ key. found missing (in_tag tag key))
      (keep_if (λ key. not (has_key key bundle)) (keys base))

abbrev pub extra_findings : String → FlatBundle → FlatBundle → List Finding
extra_findings tag base bundle =
    map (λ key. found extra (in_tag tag key))
      (keep_if (λ key. not (has_key key base)) (keys bundle))

abbrev pub empty_findings : String → FlatBundle → List Finding
empty_findings tag bundle = map (λ key. found empty_value (in_tag tag key)) (empty_values bundle)

-- `tokens_in` gives the matches of PLACEHOLDER, and `in_locale_order` sorts by `localeCompare`.
module _ (tokens_in : String → List String) (in_locale_order : List String → List String) where
  unfoldable pub placeholders_of : Option Json → List String
  placeholders_of (some (string s)) = in_locale_order (distinct [] (tokens_in s))
  placeholders_of other = []

  abbrev pub is_mismatch : FlatBundle → FlatBundle → String → Bool
  is_mismatch base bundle key =
      let expected = placeholders_of (value_at key base) in
      let actual = placeholders_of (value_at key bundle) in
      has_key key bundle
      && (not (nat_eq (length expected) (length actual)) || differs_from expected actual)

  abbrev pub mismatch_findings : String → FlatBundle → FlatBundle → List Finding
  mismatch_findings tag base bundle =
      map (λ key. found placeholder (in_tag tag key))
        (keep_if (is_mismatch base bundle) (keys base))

  unfoldable pub check_bundle : String → FlatBundle → FlatBundle → List Finding
  check_bundle tag base bundle =
      missing_findings tag base bundle
      ++ extra_findings tag base bundle
      ++ empty_findings tag bundle
      ++ mismatch_findings tag base bundle

unfoldable pub check_base_locale : String → FlatBundle → List Finding
check_base_locale tag [] = found no_base_locale tag ∷ []
check_base_locale tag (e ∷ bundle) = empty_findings tag (e ∷ bundle)

abbrev pub unnamed : FindingKind → List String → List String → List Finding
unnamed kind names tags = map (found kind) (keep_if (λ tag. not (has tag names)) tags)

unfoldable pub check_tags : List String → List String → List Finding
check_tags declared on_disk =
    unnamed undeclared_tag on_disk declared ++ unnamed undeclared_directory declared on_disk

unfoldable pub check_tag_lists_agree : List String → List String → List Finding
check_tag_lists_agree web shared =
    unnamed tag_list_mismatch shared web ++ unnamed tag_list_mismatch web shared

-- `tag_array` gives the first group of TAG_ARRAY, and `quoted_in` the groups of the quoted tags.
module _ (tag_array : String → Option String) (quoted_in : String → List String) where
  abbrev some_tags : List String → Option (List String)
  some_tags [] = none
  some_tags (tag ∷ tags) = some (tag ∷ tags)

  -- `none` where it throws.
  unfoldable pub read_declared_tags : String → Option (List String)
  read_declared_tags source = elim (tag_array source) [
    | none ↦ none
    | some listed ↦ some_tags (quoted_in listed)
  ]
