-- ===== src/Identity/Address.antt =====
-- Addresses as text: the functions of JavaScript's strings that the identity code calls on them,
-- `toLowerCase` on ASCII and `trim`, and `EMAIL_PATTERN` of
-- packages/backend-services/src/identity/AddressRegistryService.ts.
use Prim.Native.Char.{Char, code}
use Prim.Native.String.{[], ◌∷◌}
use aws_access_bridge.Base.{
  String, Bool, true, false, not, ◌&&◌, ◌||◌, leb, nat_eq, is_set, if◌then◌else◌,
}

-- The character at the place of `c` in the first text, taken from the second.
abbrev translate : String → String → Char → Char
translate [] t c = c
translate (x ∷ s) [] c = c
translate (x ∷ s) (y ∷ t) c =
    let rest = translate s t c in if nat_eq (code c) (code x) then y else rest

unfoldable pub lower : String → String
lower [] = ""
lower (c ∷ s) = translate "ABCDEFGHIJKLMNOPQRSTUVWXYZ" "abcdefghijklmnopqrstuvwxyz" c ∷ lower s

-- `\s`, which is also what `trim` takes off.
abbrev is_space : Char → Bool
is_space c =
    let n = code c in
    leb 9 n && leb n 13
    || nat_eq n 32
    || nat_eq n 0xa0
    || nat_eq n 0x1680
    || leb 0x2000 n && leb n 0x200a
    || nat_eq n 0x2028
    || nat_eq n 0x2029
    || nat_eq n 0x202f
    || nat_eq n 0x205f
    || nat_eq n 0x3000
    || nat_eq n 0xfeff

unfoldable pub trim_start : String → String
trim_start [] = ""
trim_start (c ∷ s) = let rest = trim_start s in if is_space c then rest else c ∷ s

unfoldable pub trim_end : String → String
trim_end [] = ""
trim_end (c ∷ s) = let rest = trim_end s in if is_space c && not (is_set rest) then "" else c ∷ rest

unfoldable pub trim : String → String
unfolding trim_start trim_end
trim s = trim_end (trim_start s)

-- `[^\s@]`
abbrev is_atom : Char → Bool
is_atom c = not (is_space c) && not (nat_eq (code c) b'@')

unfoldable pub all_atoms : String → Bool
all_atoms [] = true
all_atoms (c ∷ s) = is_atom c && all_atoms s

-- `[^\s.@]*\.[^\s@]+$`
unfoldable pub is_domain_rest : String → Bool
unfolding all_atoms
is_domain_rest [] = false
is_domain_rest (c ∷ s) =
    let rest = is_domain_rest s in
    if nat_eq (code c) b'.' then is_set s && all_atoms s else is_atom c && rest

-- `[^\s@]` and what follows it
abbrev is_domain : String → Bool
unfolding is_domain_rest
is_domain [] = false
is_domain (c ∷ s) = is_atom c && is_domain_rest s

-- `[^\s@]*@` and what follows it
unfoldable pub is_local_rest : String → Bool
unfolding is_domain_rest
is_local_rest [] = false
is_local_rest (c ∷ s) =
    let rest = is_local_rest s in if nat_eq (code c) b'@' then is_domain s else is_atom c && rest

-- /^[^\s@]+@[^\s@][^\s.@]*\.[^\s@]+$/
unfoldable pub is_email : String → Bool
unfolding is_local_rest
is_email [] = false
is_email (c ∷ s) = is_atom c && is_local_rest s
