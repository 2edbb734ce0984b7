-- ===== src/Locales/Literals.antt =====
-- A text written as a literal of JavaScript, and read back by `decodeLiteral`.
use Prim.Native.Char.{Char, code}
use Prim.Native.String.{[], ◌∷◌}
use text.Mathlib.TextEquality.{Char-path}
use aws_access_bridge.Base.{
  ℕ, String, true, false, nat_eq, Bool-cases, inl, inr, if◌then◌else◌, ◌≡◌, refl, sym, ap, ◌∙◌,
  arith,
}
use aws_access_bridge.Locales.Calls.{
  backslash, stands_for_itself, ends_line, newline, tabulator, carriage_return, decoded,
  decode_literal,
}

abbrev mark : Char
mark = "\\"

-- A character as it is written in a literal.
unfoldable quoted_character : Char → String → String
quoted_character c rest =
    if stands_for_itself (code c)
    then mark ∷ c ∷ rest
    else if nat_eq (code c) (code newline)
    then mark ∷ "n" ∷ rest
    else if nat_eq (code c) (code tabulator)
    then mark ∷ "t" ∷ rest
    else if nat_eq (code c) (code carriage_return)
    then mark ∷ "r" ∷ rest
    else c ∷ rest

unfoldable pub quoted : String → String
unfolding quoted_character
quoted [] = ""
quoted (c ∷ s) = quoted_character c (quoted s)

same_code : (m n : ℕ) → nat_eq m n ≡ true → m ≡ n
same_code m n h = ground arith

decode_literal-plain :
    (c : Char) (s : String)
    → nat_eq (code c) backslash ≡ false
    → decode_literal (c ∷ s) ≡ c ∷ decode_literal s
unfolding decode_literal
decode_literal-plain c [] h = refl
decode_literal-plain c (d ∷ s) h = rw h refl

is_no_backslash : (n : ℕ) → stands_for_itself n ≡ false → nat_eq n backslash ≡ false
is_no_backslash n h = ground arith

stays_on_line : (n : ℕ) → stands_for_itself n ≡ true → ends_line n ≡ false
stays_on_line n h = ground arith

tells_apart :
    (m k : ℕ) → stands_for_itself m ≡ true → stands_for_itself k ≡ false → nat_eq m k ≡ false
tells_apart m k h o = elim (Bool-cases (nat_eq m k)) [
  | inl e ↦ cc (h, o, ap stands_for_itself (same_code m k e))
  | inr e ↦ e
]

decoded_itself :
    (c : Char) (s : String) → stands_for_itself (code c) ≡ true → decoded mark c s ≡ c ∷ s
unfolding decoded
decoded_itself c s h =
    rw
      (
        tells_apart (code c) b'n' h refl,
        tells_apart (code c) b't' h refl,
        tells_apart (code c) b'r' h refl,
        h,
      )
      refl

decode_literal-quoted_character :
    (c : Char) (s : String) → decode_literal (quoted_character c s) ≡ c ∷ decode_literal s
unfolding decode_literal quoted_character decoded
decode_literal-quoted_character c s = elim (Bool-cases (stands_for_itself (code c))) [
  | inl e ↦ rw (e, stays_on_line (code c) e) (decoded_itself c (decode_literal s) e)
  | inr e ↦ elim (Bool-cases (nat_eq (code c) (code newline))) [
    | inl n ↦
        rw (e, n)
          (ap (λ d. d ∷ decode_literal s)
            (Char-path newline c (sym (same_code (code c) (code newline) n))))
    | inr n ↦ elim (Bool-cases (nat_eq (code c) (code tabulator))) [
      | inl t ↦
          rw (e, n, t)
            (ap (λ d. d ∷ decode_literal s)
              (Char-path tabulator c (sym (same_code (code c) (code tabulator) t))))
      | inr t ↦ elim (Bool-cases (nat_eq (code c) (code carriage_return))) [
        | inl r ↦
            rw (e, n, t, r)
              (ap (λ d. d ∷ decode_literal s)
                (Char-path carriage_return c (sym (same_code (code c) (code carriage_return) r))))
        | inr r ↦ rw (e, n, t, r) (decode_literal-plain c s (is_no_backslash (code c) e))
      ]
    ]
  ]
]

-- A text written as a literal is read back.
pub decode_literal-quoted : (s : String) → decode_literal (quoted s) ≡ s
unfolding decode_literal quoted
decode_literal-quoted [] = refl
decode_literal-quoted (c ∷ s) =
    decode_literal-quoted_character c (quoted s) ∙ ap (λ t. c ∷ t) (decode_literal-quoted s)
