-- ===== src/Locales/Bundles.antt =====
-- The bundles on disk that pass.
use aws_access_bridge.Base.{
  String, Option, none, some, List, [], ◌∷◌, ◌++◌, false, not, ◌==◌, keep_if, ◌≡◌, ◌↔◌, refl, subst,
  All, if◌then◌else◌,
}
use aws_access_bridge.Base.Json.{Json}
use aws_access_bridge.Locales.{
  FlatBundle, has_key, keys, check_bundle, base_locale, empty_values, empty_findings, empty_value,
  found, in_tag, missing, extra, placeholder, missing_findings, extra_findings, mismatch_findings,
  is_mismatch,
}
use aws_access_bridge.Locales.Run.{read_bundle, bundle_findings, tag_findings}
use aws_access_bridge.Locales.Advice.{
  IsAdvice, AreFailures, both_iff, failures_iff, map-AreFailures, append-AreFailures, if_iff,
}
use aws_access_bridge.Locales.Laws.{IsComplete, check_bundle_iff}

module _ (tokens_in : String → List String) (in_locale_order : List String → List String)
    (parsed : String → Option Json) (base : FlatBundle) where
  -- A tag other than the base locale's has a bundle that can be read and is complete.
  abbrev pub IsTranslated : String → Type 0
  IsTranslated tag =
      (tag == base_locale) ≡ false
      → (bundle : FlatBundle) × (read_bundle parsed tag ≡ some bundle)
        × IsComplete tokens_in in_locale_order base bundle

  check_bundle-AreFailures :
      (tag : String) (bundle : FlatBundle)
      → AreFailures (check_bundle tokens_in in_locale_order tag base bundle)
  unfolding check_bundle
  check_bundle-AreFailures tag bundle =
      let lost = missing_findings tag base bundle in
      let added = extra_findings tag base bundle in
      let unusable = empty_findings tag bundle in
      let different = mismatch_findings tokens_in in_locale_order tag base bundle in
      append-AreFailures (lost ++ added ++ unusable) different
        (append-AreFailures (lost ++ added) unusable
          (append-AreFailures lost added
            (map-AreFailures (λ key. found missing (in_tag tag key))
              (keep_if (λ key. not (has_key key bundle)) (keys base)) (λ key. refl))
            (map-AreFailures (λ key. found extra (in_tag tag key))
              (keep_if (λ key. not (has_key key base)) (keys bundle)) (λ key. refl)))
          (map-AreFailures (λ key. found empty_value (in_tag tag key)) (empty_values bundle)
            (λ key. refl)))
        (map-AreFailures (λ key. found placeholder (in_tag tag key))
          (keep_if (is_mismatch tokens_in in_locale_order base bundle) (keys base)) (λ key. refl))

  bundle_findings_iff :
      (tag : String) (o : Option FlatBundle)
      → All IsAdvice (bundle_findings tokens_in in_locale_order base tag o) ↔ (
          (bundle : FlatBundle) × (o ≡ some bundle)
          × IsComplete tokens_in in_locale_order base bundle)
  bundle_findings_iff tag none = (λ h. cc h.0, λ h. cc h.1)
  bundle_findings_iff tag (some bundle) =
      let nothing = check_bundle_iff tokens_in in_locale_order base bundle tag in
      let failures =
        failures_iff (check_bundle tokens_in in_locale_order tag base bundle)
          (check_bundle-AreFailures tag bundle) in
      (
        (λ h. (bundle, refl, nothing.0 (failures.0 h))),
        (λ (b, e, c).
            let same : b ≡ bundle = cc e in
            failures.1 (nothing.1 (subst (IsComplete tokens_in in_locale_order base) same c))),
      )

  pub tag_findings_iff :
      (tags : List String)
      → All IsAdvice (tag_findings tokens_in in_locale_order parsed base tags)
        ↔ All IsTranslated tags
  unfolding tag_findings
  tag_findings_iff [] = (λ h. tt, λ h. tt)
  tag_findings_iff (tag ∷ tags) =
      let bundle = read_bundle parsed tag in
      let findings = bundle_findings tokens_in in_locale_order base tag bundle in
      both_iff (if tag == base_locale then [] else findings)
        (tag_findings tokens_in in_locale_order parsed base tags)
        (if_iff (tag == base_locale) findings (bundle_findings_iff tag bundle))
        (tag_findings_iff tags)
