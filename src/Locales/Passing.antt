-- ===== src/Locales/Passing.antt =====
-- What a run of scripts/i18n/validate_locales.ts that passes says.
use aws_access_bridge.Base.{
  String, Option, none, some, List, [], ◌∷◌, ◌++◌, map, Bool, true, false, not, keep_if, any, ◌≡◌,
  ◌≢◌, ◌↔◌, refl, sym, ap, subst, ◌∙◌, All, map-eq-nil, if◌then◌else◌, if-false, arith,
}
use aws_access_bridge.Base.Json.{Json}
use aws_access_bridge.Locales.{
  FlatBundle, has, keys, check_base_locale, base_locale, empty_values, empty_findings, empty_value,
  found, advised, in_tag, unused_key,
}
use aws_access_bridge.Locales.Calls.{Patterns, check_unused_keys, dynamic_key_finding}
use aws_access_bridge.Locales.Run.{
  SourceFile, is_no_base, is_fatal, exit_code, read_bundle, tag_findings, site_findings, used_keys,
  dynamic_sites, all_findings, validate_against, validate_locales,
}
use aws_access_bridge.Locales.Advice.{
  All-append_iff, IsAdvice, both_iff, passes_iff, failures_iff, map-AreFailures, map-IsAdvice,
}
use aws_access_bridge.Locales.Laws.{IsUsable, empty_values_iff}
use aws_access_bridge.Locales.Sites.{CallsAgree, site_findings_iff}
use aws_access_bridge.Locales.Bundles.{IsTranslated, tag_findings_iff}

no_base_findings :
    (tag : String) (names : List String)
    → any is_no_base (map (λ key. found empty_value (in_tag tag key)) names) ≡ false
no_base_findings tag [] = refl
no_base_findings tag (n ∷ ns) = no_base_findings tag ns

module _ (tokens_in : String → List String) (in_locale_order : List String → List String)
    (patterns : Patterns) (parsed : String → Option Json) where
  -- The base bundle has a key, its values are texts that are not empty, every other bundle on disk
  -- can be read and is complete, and every call agrees with the base bundle.
  abbrev pub IsValid : FlatBundle → List String → List SourceFile → Type 0
  IsValid base on_disk files =
      (base ≢ [])
      × All IsUsable base
      × All (IsTranslated tokens_in in_locale_order parsed base) on_disk
      × All (CallsAgree patterns base) files

  reports-IsAdvice :
      (base : FlatBundle) (files : List SourceFile)
      → All IsAdvice (
          check_unused_keys base (used_keys patterns files)
          ++ map dynamic_key_finding (dynamic_sites patterns 0 files))
  unfolding check_unused_keys
  reports-IsAdvice base files =
      let unused = check_unused_keys base (used_keys patterns files) in
      let sites = dynamic_sites patterns 0 files in
      (All-append_iff IsAdvice unused (map dynamic_key_finding sites)).1 (
        map-IsAdvice (advised unused_key)
            (keep_if (λ key. not (has key (used_keys patterns files))) (keys base)) (λ key. refl),
        map-IsAdvice dynamic_key_finding sites (λ place. refl),
      )

  base_findings_iff :
      (base : FlatBundle) → All IsAdvice (empty_findings base_locale base) ↔ All IsUsable base
  base_findings_iff base =
      let finding = λ (key : String). found empty_value (in_tag base_locale key) in
      let failures =
        failures_iff (empty_findings base_locale base)
          (map-AreFailures finding (empty_values base) (λ key. refl)) in
      let unusable = empty_values_iff base in
      (
        (λ h. unusable.0 (map-eq-nil finding (empty_values base) (failures.0 h))),
        (λ h. failures.1 (ap (map finding) (unusable.1 h))),
      )

  fatal_findings_iff :
      (base : FlatBundle) (on_disk : List String) (files : List SourceFile)
      → All IsAdvice (
          empty_findings base_locale base
          ++ tag_findings tokens_in in_locale_order parsed base on_disk
          ++ site_findings patterns base files
          ++ (check_unused_keys base (used_keys patterns files)
              ++ map dynamic_key_finding (dynamic_sites patterns 0 files)))
        ↔ (All IsUsable base
            × All (IsTranslated tokens_in in_locale_order parsed base) on_disk
            × All (CallsAgree patterns base) files)
  fatal_findings_iff base on_disk files =
      let unusable = empty_findings base_locale base in
      let tags = tag_findings tokens_in in_locale_order parsed base on_disk in
      let sites = site_findings patterns base files in
      let rest =
        check_unused_keys base (used_keys patterns files)
        ++ map dynamic_key_finding (dynamic_sites patterns 0 files) in
      let two =
        both_iff unusable tags (base_findings_iff base)
          (tag_findings_iff tokens_in in_locale_order parsed base on_disk) in
      let three = both_iff (unusable ++ tags) sites two (site_findings_iff patterns base files) in
      let apart = All-append_iff IsAdvice (unusable ++ tags ++ sites) rest in
      (
        (λ h. let ((u, t), c) = three.0 (apart.0 h).0 in (u, t, c)),
        (λ h. apart.1 (three.1 ((h.0, h.1), h.2), reports-IsAdvice base files)),
      )

  validate_against_iff :
      (base : FlatBundle) (on_disk : List String) (files : List SourceFile)
      → (validate_against tokens_in in_locale_order patterns parsed (some base) on_disk files ≡ 0)
        ↔ IsValid base on_disk files
  unfolding check_base_locale
  validate_against_iff [] on_disk files = (λ h. absurd (omega (arith, h)), λ h. absurd (h.0 refl))
  validate_against_iff (e ∷ base) on_disk files =
      let there = e ∷ base in
      let runs =
        if-false (any is_no_base (empty_findings base_locale there)) 1
          (exit_code (
            keep_if is_fatal
              (all_findings tokens_in in_locale_order patterns parsed there on_disk files)))
          (no_base_findings base_locale (empty_values there)) in
      let passes =
        passes_iff (all_findings tokens_in in_locale_order patterns parsed there on_disk files) in
      let findings = fatal_findings_iff there on_disk files in
      (
        (λ h.
            let (usable, translated, calls) = findings.0 (passes.0 (sym runs ∙ h)) in
            ((λ k. cc k), usable, translated, calls)),
        (λ h. runs ∙ passes.1 (findings.1 (h.1, h.2, h.3))),
      )

  against_iff :
      (is_there : Bool) (o : Option FlatBundle) (on_disk : List String) (files : List SourceFile)
      → ((if is_there
            then validate_against tokens_in in_locale_order patterns parsed o on_disk files
            else 1)
          ≡ 0)
        ↔ ((is_there ≡ true) × (base : FlatBundle) × (o ≡ some base) × IsValid base on_disk files)
  against_iff false o on_disk files = (λ h. absurd (omega (arith, h)), λ h. cc h.0)
  against_iff true none on_disk files = (λ h. absurd (omega (arith, h)), λ h. cc h.2)
  against_iff true (some base) on_disk files =
      let rule = validate_against_iff base on_disk files in
      (
        (λ h. (refl, base, refl, rule.0 h)),
        (λ (t, b, e, v).
            let same : b ≡ base = cc e in rule.1 (subst (λ x. IsValid x on_disk files) same v)),
      )

  -- The run exits with 0 exactly where the base locale has a directory and a bundle that can be read
  -- and is not empty, its values are texts that are not empty, every other directory has a bundle that
  -- can be read and is complete, and the default of each call is the base bundle's text where the
  -- bundle has the key. The run compares no lists of supported tags.
  pub validate_locales_iff :
      (on_disk : List String) (files : List SourceFile)
      → (validate_locales tokens_in in_locale_order patterns parsed on_disk files ≡ 0) ↔ (
          (has base_locale on_disk ≡ true)
          × (base : FlatBundle) × (read_bundle parsed base_locale ≡ some base)
          × IsValid base on_disk files)
  unfolding validate_locales
  validate_locales_iff on_disk files =
      against_iff (has base_locale on_disk) (read_bundle parsed base_locale) on_disk files
