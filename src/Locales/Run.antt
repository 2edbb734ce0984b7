-- ===== src/Locales/Run.antt =====
-- scripts/i18n/validate_locales.ts: a run over the directories of the locales and the files of the
-- web application.
use aws_access_bridge.Base.{
  ℕ, String, Option, none, some, List, [], ◌∷◌, ◌++◌, map, Bool, true, false, not, ◌==◌, any,
  keep_if, if◌then◌else◌,
}
use aws_access_bridge.Base.Json.{Json}
use aws_access_bridge.Locales.{
  FlatBundle, Finding, found, malformed, no_base_locale, has, flatten, check_base_locale,
  check_bundle, base_locale,
}
use aws_access_bridge.Locales.Calls.{
  Patterns, TranslationCall, translation_calls, has_dynamic_call, check_call_site,
  check_unused_keys, dynamic_key_finding,
}

-- The path of a file from the root, and its text.
pub record SourceFile : Type 0 where
  pub place : String
  pub source : String

abbrev pub is_no_base : Finding → Bool
is_no_base f = elim f.kind [ no_base_locale ↦ true | _ ↦ false ]

abbrev pub is_fatal : Finding → Bool
is_fatal f = not f.advisory

-- `process.exit`
abbrev pub exit_code : List Finding → ℕ
exit_code [] = 0
exit_code (f ∷ fs) = 1

-- `parsed` is the JSON text of a tag's translation.json, `none` where it cannot be read or parsed.
unfoldable pub read_bundle : (String → Option Json) → String → Option FlatBundle
read_bundle parsed tag = elim (parsed tag) [ none ↦ none | some json ↦ flatten json ]

module _ (tokens_in : String → List String) (in_locale_order : List String → List String) where
  abbrev pub bundle_findings : FlatBundle → String → Option FlatBundle → List Finding
  bundle_findings base tag none = found malformed tag ∷ []
  bundle_findings base tag (some bundle) = check_bundle tokens_in in_locale_order tag base bundle

  unfoldable pub tag_findings : (String → Option Json) → FlatBundle → List String → List Finding
  tag_findings parsed base [] = []
  tag_findings parsed base (tag ∷ tags) =
      (if tag == base_locale then [] else bundle_findings base tag (read_bundle parsed tag))
      ++ tag_findings parsed base tags

abbrev pub call_findings : FlatBundle → String → List TranslationCall → List Finding
call_findings base place [] = []
call_findings base place (call ∷ calls) =
    check_call_site place call base ++ call_findings base place calls

module _ (patterns : Patterns) where
  unfoldable pub site_findings : FlatBundle → List SourceFile → List Finding
  site_findings base [] = []
  site_findings base (f ∷ fs) =
      call_findings base f.place (translation_calls patterns f.source) ++ site_findings base fs

  -- The keys of the calls, with repetitions.
  unfoldable pub used_keys : List SourceFile → List String
  used_keys [] = []
  used_keys (f ∷ fs) = map (λ c. c.key) (translation_calls patterns f.source) ++ used_keys fs

  -- From the `lastIndex` that the file before has left. No two files have one path.
  unfoldable pub dynamic_sites : ℕ → List SourceFile → List String
  dynamic_sites last_index [] = []
  dynamic_sites last_index (f ∷ fs) =
      let (is_dynamic, left) = has_dynamic_call patterns last_index f.source in
      let rest = dynamic_sites left fs in if is_dynamic then f.place ∷ rest else rest

module _ (tokens_in : String → List String) (in_locale_order : List String → List String)
    (patterns : Patterns) (parsed : String → Option Json) where
  abbrev pub all_findings : FlatBundle → List String → List SourceFile → List Finding
  all_findings base on_disk files =
      check_base_locale base_locale base
      ++ tag_findings tokens_in in_locale_order parsed base on_disk
      ++ site_findings patterns base files
      ++ (check_unused_keys base (used_keys patterns files)
          ++ map dynamic_key_finding (dynamic_sites patterns 0 files))

  -- The code the process exits with. A base bundle that cannot be read is an error that nothing
  -- catches.
  abbrev pub validate_against : Option FlatBundle → List String → List SourceFile → ℕ
  validate_against none on_disk files = 1
  validate_against (some base) on_disk files =
      if any is_no_base (check_base_locale base_locale base)
      then 1
      else exit_code (keep_if is_fatal (all_findings base on_disk files))

  unfoldable pub validate_locales : List String → List SourceFile → ℕ
  validate_locales on_disk files =
      if has base_locale on_disk
      then validate_against (read_bundle parsed base_locale) on_disk files
      else 1
