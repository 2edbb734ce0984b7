-- ===== src/Locales/Sites.antt =====
-- The calls of `t()` that pass.
use aws_access_bridge.Base.{
  String, Option, none, some, List, [], ◌∷◌, Bool, true, false, ◌≡◌, ◌↔◌, refl, ap, All, Bool-cases,
  inl, inr, eq_iff, eq_refl, if◌then◌else◌,
}
use aws_access_bridge.Base.Json.{Json, string}
use aws_access_bridge.Locales.{FlatBundle, has_key, value_at, advised, unknown_key}
use aws_access_bridge.Locales.Calls.{
  Patterns, TranslationCall, translation_calls, check_call_site, is_text, default_findings, site,
}
use aws_access_bridge.Locales.Run.{SourceFile, call_findings, site_findings}
use aws_access_bridge.Locales.Advice.{IsAdvice, both_iff}

-- The default of a call, where it has one and the bundle has its key, is the text of the bundle.
abbrev pub Agrees : FlatBundle → TranslationCall → Type 0
Agrees base call =
    (inline : String)
    → call.inline_default ≡ some inline
    → has_key call.key base ≡ true
    → value_at call.key base ≡ some (string inline)

is_text-string :
    (s : String) (value : Option Json) → is_text s value ≡ true → value ≡ some (string s)
is_text-string s (some (string bundled)) h = ap (λ t. some (string t)) ((eq_iff bundled s).0 h)
is_text-string s (some other) h = cc
is_text-string s none h = cc

default_iff :
    (subject s : String) (value : Option Json)
    → All IsAdvice (default_findings subject (some s) value) ↔ (value ≡ some (string s))
default_iff subject s value = (
  (λ h. elim (Bool-cases (is_text s value)) [
    | inl e ↦ is_text-string s value e
    | inr e ↦ let shown = rw e at h in cc shown.0
  ]),
  (λ e. rw (e, eq_refl s) tt),
)

site_iff :
    (subject : String) (is_there : Bool) (inline : Option String) (value : Option Json)
    → All IsAdvice (
        if is_there
        then default_findings subject inline value
        else advised unknown_key subject ∷ [])
      ↔ ((s : String) → inline ≡ some s → is_there ≡ true → value ≡ some (string s))
site_iff subject false inline value = (λ h s e k. cc, λ f. (refl, tt))
site_iff subject true none value = (λ h s e k. cc, λ f. tt)
site_iff subject true (some s) value =
    let rule = default_iff subject s value in
    (λ h t e k. cc (rule.0 h, e), λ f. rule.1 (f s refl refl))

check_call_site_iff :
    (place : String) (call : TranslationCall) (base : FlatBundle)
    → All IsAdvice (check_call_site place call base) ↔ Agrees base call
unfolding check_call_site
check_call_site_iff place call base =
    site_iff (site place call.key) (has_key call.key base) call.inline_default
      (value_at call.key base)

module _ (base : FlatBundle) where
  call_findings_iff :
      (place : String) (calls : List TranslationCall)
      → All IsAdvice (call_findings base place calls) ↔ All (Agrees base) calls
  call_findings_iff place [] = (λ h. tt, λ h. tt)
  call_findings_iff place (call ∷ calls) =
      both_iff (check_call_site place call base) (call_findings base place calls)
        (check_call_site_iff place call base) (call_findings_iff place calls)

module _ (patterns : Patterns) (base : FlatBundle) where
  -- Every call of a file agrees with the base bundle.
  abbrev pub CallsAgree : SourceFile → Type 0
  CallsAgree f = All (Agrees base) (translation_calls patterns f.source)

  pub site_findings_iff :
      (files : List SourceFile)
      → All IsAdvice (site_findings patterns base files) ↔ All CallsAgree files
  unfolding site_findings
  site_findings_iff [] = (λ h. tt, λ h. tt)
  site_findings_iff (f ∷ fs) =
      both_iff (call_findings base f.place (translation_calls patterns f.source))
        (site_findings patterns base fs)
        (call_findings_iff base f.place (translation_calls patterns f.source))
        (site_findings_iff fs)
