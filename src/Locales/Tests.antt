-- ===== src/Locales/Tests.antt =====
-- Two bundles, a call that agrees with the base bundle, and a literal.
use aws_access_bridge.Base.{
  String, Option, none, some, List, [], ◌∷◌, ◌≡◌, ◌↔◌, refl, true, if◌then◌else◌, ◌==◌, nat_eq,
}
use aws_access_bridge.Base.Json.{Json, string, object, empty, property}
use aws_access_bridge.Locales.{
  FlatBundle, has, base_locale, flatten, flatten_properties, value_at, set_value, placeholders_of,
  check_bundle, empty_values, check_base_locale, differs_from,
}
use aws_access_bridge.Locales.Calls.{
  Patterns, translation_calls, check_call_site, decode_literal, decoded, has_dynamic_call,
  check_unused_keys,
}
use aws_access_bridge.Locales.Run.{
  SourceFile, read_bundle, validate_locales, dynamic_sites, tag_findings, site_findings, used_keys,
}
use aws_access_bridge.Locales.Passing.{IsValid, validate_locales_iff}

abbrev no_tokens : String → List String
no_tokens s = []

abbrev as_found : List String → List String
as_found tokens = tokens

abbrev bundle_of : String → Json
bundle_of title = object (property "page" (object (property "title" (string title) empty)) empty)

abbrev two_locales : String → Option Json
two_locales tag =
    if tag == "en"
    then some (bundle_of "Costs")
    else if tag == "de"
    then some (bundle_of "Kosten")
    else none

-- The call `t('page.title', 'Costs')` of a file, and the literal key of another.
abbrev found_patterns : Patterns
found_patterns = record {
  t_keys = λ source. if source == "costs" then ("page.title", 14) ∷ [] else [];
  t_default = λ source place. some (none, some "Costs");
  dynamic_t_call = λ source from. if nat_eq from 0 then some 3 else none;
  source_length = λ source. 6;
}

abbrev source_file : String → String → SourceFile
source_file place source = record { place = place; source = source }

abbrev one_file : List SourceFile
one_file = source_file "Costs.tsx" "costs" ∷ []

validate_locales_iff_example :
    (validate_locales no_tokens as_found found_patterns two_locales ("de" ∷ "en" ∷ []) one_file ≡ 0)
    ↔ ((has base_locale ("de" ∷ "en" ∷ []) ≡ true)
        × (base : FlatBundle) × (read_bundle two_locales base_locale ≡ some base)
        × IsValid no_tokens as_found found_patterns two_locales base ("de" ∷ "en" ∷ []) one_file)
validate_locales_iff_example =
    validate_locales_iff no_tokens as_found found_patterns two_locales ("de" ∷ "en" ∷ []) one_file

passes :
    validate_locales no_tokens as_found found_patterns two_locales ("de" ∷ "en" ∷ []) one_file ≡ 0
unfolding validate_locales read_bundle flatten flatten_properties check_base_locale set_value
    empty_values tag_findings check_bundle placeholders_of value_at differs_from site_findings
    translation_calls check_call_site check_unused_keys used_keys dynamic_sites has_dynamic_call
    decode_literal decoded
passes = refl

fails :
    validate_locales no_tokens as_found found_patterns two_locales ("en" ∷ "fr" ∷ []) one_file ≡ 1
unfolding validate_locales read_bundle flatten flatten_properties check_base_locale set_value
    empty_values tag_findings check_bundle placeholders_of value_at differs_from site_findings
    translation_calls check_call_site check_unused_keys used_keys dynamic_sites has_dynamic_call
    decode_literal decoded
fails = refl

reads_escapes : decode_literal "a\\n\\'\\d" ≡ "a\n'\\d"
unfolding decode_literal decoded
reads_escapes = refl

-- Two files with one text, t(`a`): the second call is not seen.
second_site_missed :
    dynamic_sites found_patterns 0
      (source_file "A.tsx" "t(`a`)" ∷ source_file "B.tsx" "t(`a`)" ∷ [])
    ≡ "A.tsx" ∷ []
unfolding dynamic_sites has_dynamic_call
second_site_missed = refl
