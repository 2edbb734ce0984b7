-- ===== src/Base/Text.antt =====
-- JavaScript's truth of a string, and of an optional one: the empty string is false.
use Prim.Native.String.{String}
use Prim.Native.Char.{Char}
use Prim.Native.String.{◌∷◌}
use mathlib.Core.Path.{◌≡◌}
use mathlib.Core.Logic.{inl, inr, ◌≢◌}
use mathlib.Core.Bool.{Bool, true, false, not}
use mathlib.Core.Option.{Option, none, some}
use text.Mathlib.Text.{◌==◌}
use text.Mathlib.TextEquality.{eq_iff}
use text.Mathlib.TextLemmas.{cons≢nil}
use aws_access_bridge.Base.Tests.{Bool-cases}

abbrev pub is_set : String → Bool
is_set s = not (s == "")

-- An optional string is true where it is there and not empty.
abbrev pub present : Option String → Bool
present none = false
present (some s) = is_set s

abbrev pub text_or_empty : Option String → String
text_or_empty none = ""
text_or_empty (some s) = s

pub is_set-cons : (c : Char) (s : String) → is_set (c ∷ s) ≡ true
is_set-cons c s = elim (Bool-cases ((c ∷ s) == "")) [
  | inl e ↦ absurd (cons≢nil ((eq_iff (c ∷ s) "").0 e))
  | inr e ↦ rw e
]

-- Texts that the test tells apart.
pub differ : (a b : String) → (a == b) ≡ false → a ≢ b
differ a b h e = cc ((eq_iff a b).1 e, h)

pub ≢-differ : (a b : String) → a ≢ b → (a == b) ≡ false
≢-differ a b h = elim (Bool-cases (a == b)) [ inl e ↦ absurd (h ((eq_iff a b).0 e)) | inr e ↦ e ]
