-- ===== src/Locales/Calls.antt =====
-- scripts/i18n/locale-checks.ts: the calls of `t()` against the bundle of the base locale.
use Prim.Native.Char.{Char, code}
use Prim.Native.String
use Prim.Native.String.{[], ◌∷◌}
use aws_access_bridge.Base.{
  ℕ, String, Option, none, some, List, [], ◌∷◌, map, Bool, true, false, not, ◌&&◌, ◌||◌, ◌==◌, ltb,
  keep_if, nat_eq, if◌then◌else◌,
}
use aws_access_bridge.Base.Json.{Json, string}
use aws_access_bridge.Locales.{
  FlatBundle, Finding, advised, found, unknown_key, default_disagrees, unused_key, dynamic_key,
  has_key, has, keys, value_at,
}

-- What `.` leaves out.
abbrev pub ends_line : ℕ → Bool
ends_line n = nat_eq n 10 || nat_eq n 13 || nat_eq n 0x2028 || nat_eq n 0x2029

abbrev pub backslash : ℕ
backslash = b'\\'

abbrev pub stands_for_itself : ℕ → Bool
stands_for_itself n = nat_eq n backslash || nat_eq n b'\'' || nat_eq n b'"' || nat_eq n b'`'

abbrev pub newline : Char
newline = "\n"

abbrev pub tabulator : Char
tabulator = "\t"

abbrev pub carriage_return : Char
carriage_return = "\r"

-- The characters that `\c` stands for, before the rest.
unfoldable pub decoded : Char → Char → String → String
decoded mark c rest =
    if nat_eq (code c) b'n'
    then newline ∷ rest
    else if nat_eq (code c) b't'
    then tabulator ∷ rest
    else if nat_eq (code c) b'r'
    then carriage_return ∷ rest
    else if stands_for_itself (code c)
    then c ∷ rest
    else mark ∷ c ∷ rest

unfoldable pub decode_literal : String → String
unfolding decoded
decode_literal [] = ""
decode_literal (c ∷ []) = c ∷ ""
decode_literal (c ∷ d ∷ s) =
    let after = decode_literal s in
    let next = decode_literal (d ∷ s) in
    if nat_eq (code c) backslash && not (ends_line (code d)) then decoded c d after else c ∷ next

pub record TranslationCall : Type 0 where
  pub key : String
  pub inline_default : Option String

-- The matches of the patterns in a source: the keys of T_KEY with the places where the matches end,
-- the two groups of T_DEFAULT at a place, and where the first match of DYNAMIC_T_CALL at or after a
-- place ends.
pub record Patterns : Type 0 where
  pub t_keys : String → List (String × ℕ)
  pub t_default : String → ℕ → Option (Option String × Option String)
  pub dynamic_t_call : String → ℕ → Option ℕ
  pub source_length : String → ℕ

-- `asDefault?.[1] ?? asDefault?.[2]`
abbrev raw_default : Option (Option String × Option String) → Option String
raw_default none = none
raw_default (some (some double, single)) = some double
raw_default (some (none, single)) = single

abbrev decoded_default : Option String → Option String
decoded_default none = none
decoded_default (some raw) = some (decode_literal raw)

module _ (patterns : Patterns) where
  unfoldable pub translation_calls : String → List TranslationCall
  unfolding decode_literal
  translation_calls source =
      map
        (λ m. record {
          key = m.0;
          inline_default = decoded_default (raw_default (patterns.t_default source m.1));
        })
        (patterns.t_keys source)

  -- `DYNAMIC_T_CALL.test(source)`. The pattern is global, so that the test starts at its `lastIndex`,
  -- which is the first number here, and leaves it behind the match; one that fails sets it to 0.
  unfoldable pub has_dynamic_call : ℕ → String → Bool × ℕ
  has_dynamic_call last_index source =
      let matched = patterns.dynamic_t_call source last_index in
      if ltb (patterns.source_length source) last_index
      then (false, 0)
      else elim matched [ none ↦ (false, 0) | some place ↦ (true, place) ]

abbrev pub is_text : String → Option Json → Bool
is_text s (some (string bundled)) = bundled == s
is_text s other = false

abbrev pub default_findings : String → Option String → Option Json → List Finding
default_findings subject none bundled = []
default_findings subject (some inline) bundled =
    if is_text inline bundled then [] else found default_disagrees subject ∷ []

abbrev pub site : String → String → String
site place key = String.◌++◌ place (String.◌++◌ ":" key)

unfoldable pub check_call_site : String → TranslationCall → FlatBundle → List Finding
check_call_site place call base =
    if has_key call.key base
    then default_findings (site place call.key) call.inline_default (value_at call.key base)
    else advised unknown_key (site place call.key) ∷ []

unfoldable pub check_unused_keys : FlatBundle → List String → List Finding
check_unused_keys base used =
    map (advised unused_key) (keep_if (λ key. not (has key used)) (keys base))

abbrev pub dynamic_key_finding : String → Finding
dynamic_key_finding place = advised dynamic_key place
