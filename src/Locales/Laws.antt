-- ===== src/Locales/Laws.antt =====
-- When the rules of scripts/i18n/locale-checks.ts find nothing.
use aws_access_bridge.Base.{
  String, List, [], ◌++◌, map, true, false, ◌≡◌, ◌↔◌, refl, sym, ap, ◌∙◌, All, append-eq-nil,
  map-eq-nil, none-keep_if, keep_if-none, Option, none, some, ◌≢◌, not, is_set, ◌==◌, eq_iff,
  All-imp, Bool-cases, inl, inr,
}
use aws_access_bridge.Base.Json.{
  Json, string, null_value, boolean, natural, other_number, array, object,
}
use aws_access_bridge.Locales.{
  FlatBundle, has, has_key, keys, value_at, is_usable, empty_values, placeholders_of, is_mismatch,
  check_bundle, check_tags, check_tag_lists_agree, found, FindingKind, unnamed, missing, extra,
  empty_value, placeholder, undeclared_tag, undeclared_directory, tag_list_mismatch, in_tag,
  missing_findings, extra_findings, empty_findings, mismatch_findings,
}
use aws_access_bridge.Locales.Names.{
  All-has, has-All, none_found_iff, tokens_iff, same_names_iff, and-rest, and-none, each_once,
  distinct-each_once,
}

four_nil_iff :
    {A : Type 0} (ws xs ys zs : List A)
    → (ws ++ xs ++ ys ++ zs ≡ []) ↔ ((ws ≡ []) × (xs ≡ []) × (ys ≡ []) × (zs ≡ []))
four_nil_iff ws xs ys zs = (
  (λ h.
      let (others, d) = append-eq-nil (ws ++ xs ++ ys) zs h in
      let (others, c) = append-eq-nil (ws ++ xs) ys others in
      let (a, b) = append-eq-nil ws xs others in (a, b, c, d)),
  (λ h. rw (h.0, h.1, h.2, h.3) refl),
)

-- Two lists of names that are checked against each other.
unnamed-nil_iff :
    (kind other_kind : FindingKind) (xs ys : List String)
    → (unnamed kind ys xs ++ unnamed other_kind xs ys ≡ []) ↔ ((x : String) → has x xs ≡ has x ys)
unnamed-nil_iff kind other_kind xs ys =
    let in_ys = none_found_iff (found kind) (λ x. has x ys) xs in
    let in_xs = none_found_iff (found other_kind) (λ y. has y xs) ys in
    (
      (λ h.
          let (first, second) = append-eq-nil (unnamed kind ys xs) (unnamed other_kind xs ys) h in
          (same_names_iff xs ys).0 (in_ys.0 first, in_xs.0 second)),
      (λ f.
          let (first, second) = (same_names_iff xs ys).1 f in
          rw (in_ys.1 first, in_xs.1 second) refl),
    )

-- A text that is not empty.
abbrev pub IsUsable : String × Json → Type 0
IsUsable e = (s : String) × (e.1 ≡ string s) × (s ≢ "")

is_usable_iff : (key : String) (value : Json) → (is_usable value ≡ true) ↔ IsUsable (key, value)
is_usable_iff key (string s) = (
  (λ h. (s, refl, λ e. cc (sym h ∙ ap is_set e))),
  (λ (t, e, k).
      let same : s ≡ t = cc e in
      elim (Bool-cases (s == "")) [
        | inl g ↦ absurd (k (sym same ∙ (eq_iff s "").0 g))
        | inr g ↦ ap not g
      ]),
)
is_usable_iff key null_value = (λ h. cc h, λ h. cc h.1)
is_usable_iff key (boolean b) = (λ h. cc h, λ h. cc h.1)
is_usable_iff key (natural n) = (λ h. cc h, λ h. cc h.1)
is_usable_iff key other_number = (λ h. cc h, λ h. cc h.1)
is_usable_iff key (array es) = (λ h. cc h, λ h. cc h.1)
is_usable_iff key (object ps) = (λ h. cc h, λ h. cc h.1)

-- No value of a bundle is reported exactly where all are usable.
pub empty_values_iff : (bundle : FlatBundle) → (empty_values bundle ≡ []) ↔ All IsUsable bundle
unfolding empty_values
empty_values_iff bundle =
    let usable = none_found_iff (λ (e : String × Json). e.0) (λ e. is_usable e.1) bundle in
    (
      (λ h.
          All-imp (λ e. is_usable e.1 ≡ true) IsUsable bundle (λ e. (is_usable_iff e.0 e.1).0)
            (usable.0 h)),
      (λ h.
          usable.1 (
            All-imp IsUsable (λ e. is_usable e.1 ≡ true) bundle (λ e. (is_usable_iff e.0 e.1).1)
              h)),
    )

module _ (tokens_in : String → List String) (in_locale_order : List String → List String) where
  -- The tokens of a text, each once, in the order of the locale.
  abbrev pub tokens : Option Json → List String
  tokens none = []
  tokens (some (string s)) = in_locale_order (each_once (tokens_in s))
  tokens (some other) = []

  placeholders_of-tokens :
      (value : Option Json) → placeholders_of tokens_in in_locale_order value ≡ tokens value
  unfolding placeholders_of
  placeholders_of-tokens none = refl
  placeholders_of-tokens (some (string s)) = ap in_locale_order (distinct-each_once (tokens_in s))
  placeholders_of-tokens (some null_value) = refl
  placeholders_of-tokens (some (boolean b)) = refl
  placeholders_of-tokens (some (natural n)) = refl
  placeholders_of-tokens (some other_number) = refl
  placeholders_of-tokens (some (array es)) = refl
  placeholders_of-tokens (some (object ps)) = refl

module _ (tokens_in : String → List String) (in_locale_order : List String → List String)
    (base bundle : FlatBundle) where
  abbrev pub AgreesOn : String → Type 0
  AgreesOn key =
      has_key key bundle ≡ true
      → tokens tokens_in in_locale_order (value_at key base)
        ≡ tokens tokens_in in_locale_order (value_at key bundle)

  -- The bundle has the keys of the base bundle and no others, its values are texts that are not
  -- empty, and the values of a key have the same placeholders.
  abbrev pub IsComplete : Type 0
  IsComplete =
      ((key : String) → has_key key base ≡ has_key key bundle)
      × All IsUsable bundle
      × ((key : String)
          → has_key key base ≡ true
          → tokens tokens_in in_locale_order (value_at key base)
            ≡ tokens tokens_in in_locale_order (value_at key bundle))

  mismatch_iff :
      (key : String)
      → (is_mismatch tokens_in in_locale_order base bundle key ≡ false) ↔ AgreesOn key
  mismatch_iff key =
      let expected = placeholders_of-tokens tokens_in in_locale_order (value_at key base) in
      let actual = placeholders_of-tokens tokens_in in_locale_order (value_at key bundle) in
      let equal =
        tokens_iff (placeholders_of tokens_in in_locale_order (value_at key base))
          (placeholders_of tokens_in in_locale_order (value_at key bundle)) in
      (
        (λ h k. sym expected ∙ equal.0 (and-rest _ _ h k) ∙ actual),
        (λ f. and-none (has_key key bundle) _ (λ k. equal.1 (expected ∙ f k ∙ sym actual))),
      )

  -- The check of a bundle finds nothing exactly where the bundle is complete.
  pub check_bundle_iff :
      (tag : String) → (check_bundle tokens_in in_locale_order tag base bundle ≡ []) ↔ IsComplete
  unfolding check_bundle
  check_bundle_iff tag =
      let lost =
        none_found_iff (λ key. found missing (in_tag tag key)) (λ key. has_key key bundle)
          (keys base) in
      let added =
        none_found_iff (λ key. found extra (in_tag tag key)) (λ key. has_key key base)
          (keys bundle) in
      let unusable = empty_values_iff bundle in
      let names = same_names_iff (keys base) (keys bundle) in
      let parts =
        four_nil_iff (missing_findings tag base bundle) (extra_findings tag base bundle)
          (empty_findings tag bundle)
          (mismatch_findings tokens_in in_locale_order tag base bundle) in
      (
        (λ h.
            let (no_missing, no_extra, no_empty, no_mismatch) = parts.0 h in
            let same = names.0 (lost.0 no_missing, added.0 no_extra) in
            (
              same,
              unusable.0 (map-eq-nil _ (empty_values bundle) no_empty),
              (λ key e.
                  (mismatch_iff key).0
                    (All-has (λ key. is_mismatch tokens_in in_locale_order base bundle key ≡ false)
                      (keys base) (none-keep_if _ (keys base) (map-eq-nil _ _ no_mismatch)) key e)
                    (sym (same key) ∙ e)),
            )),
        (λ h.
            let (no_missing, no_extra) = names.1 h.0 in
            parts.1 (
              lost.1 no_missing,
              added.1 no_extra,
              ap (map (λ key. found empty_value (in_tag tag key))) (unusable.1 h.1),
              ap (map (λ key. found placeholder (in_tag tag key))) (
                  keep_if-none (is_mismatch tokens_in in_locale_order base bundle) (keys base) (
                    has-All (λ key. is_mismatch tokens_in in_locale_order base bundle key ≡ false)
                      (keys base) (λ key e. (mismatch_iff key).1 (λ k. h.2 key e)))),
            )),
      )

-- The check of the tags finds nothing exactly where the declared tags are those on disk.
check_tags_iff :
    (declared on_disk : List String)
    → (check_tags declared on_disk ≡ []) ↔ ((tag : String) → has tag declared ≡ has tag on_disk)
unfolding check_tags
check_tags_iff = unnamed-nil_iff undeclared_tag undeclared_directory

-- The check of the lists of tags finds nothing exactly where they name the same tags.
check_tag_lists_agree_iff :
    (web shared : List String)
    → (check_tag_lists_agree web shared ≡ []) ↔ ((tag : String) → has tag web ≡ has tag shared)
unfolding check_tag_lists_agree
check_tag_lists_agree_iff = unnamed-nil_iff tag_list_mismatch tag_list_mismatch
