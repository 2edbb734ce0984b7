-- ===== src/Arn.antt =====
-- ARNs and account ids: packages/shared/src/utils/aws.ts, the patterns of
-- packages/shared/src/schema/common.ts, and packages/backend-services/src/aws/ArnUtil.ts.
pub mod Laws
mod Tests
use Prim.Native.Char.{Char, code}
use Prim.Native.String
use Prim.Native.String.{[], ◌∷◌}
use aws_access_bridge.Base.{
  ℕ, zero, suc, String, Option, none, some, List, [], ◌∷◌, Bool, true, false, not, ◌&&◌, ◌||◌, ltb,
  leb, nat_eq, length, get_elem?, is_set, present, if◌then◌else◌,
}
use aws_access_bridge.Base.Errors.{Result, ok, err, bad_request}

abbrev push_head : Char → List String → List String
push_head c [] = (c ∷ []) ∷ []
push_head c (part ∷ parts) = (c ∷ part) ∷ parts

-- `s.split(':')`
unfoldable pub split_colon : String → List String
split_colon [] = "" ∷ []
split_colon (c ∷ s) =
    let rest = split_colon s in if nat_eq (code c) b':' then "" ∷ rest else push_head c rest

-- What follows `prefix` in `s`, if `s` starts with it.
unfoldable pub strip_prefix : String → String → Option String
strip_prefix [] s = some s
strip_prefix (p ∷ ps) [] = none
strip_prefix (p ∷ ps) (c ∷ s) =
    let rest = strip_prefix ps s in if nat_eq (code p) (code c) then rest else none

-- `\d`
abbrev is_digit : Char → Bool
is_digit c = leb b'0' (code c) && leb (code c) b'9'

-- What follows the first `n` characters of `s`, if those are digits.
unfoldable pub strip_digits : ℕ → String → Option String
strip_digits zero s = some s
strip_digits (suc n) [] = none
strip_digits (suc n) (c ∷ s) = let rest = strip_digits n s in if is_digit c then rest else none

abbrev is_end : Option String → Bool
is_end none = false
is_end (some s) = not (is_set s)

-- `isAwsAccountId`: /^\d{12}$/
unfoldable pub is_aws_account_id : String → Bool
unfolding strip_digits
is_aws_account_id s = is_end (strip_digits 12 s)

-- `.` of a pattern: all but the line terminators.
abbrev is_dot : Char → Bool
is_dot c =
    not
      (nat_eq (code c) 10 || nat_eq (code c) 13 || nat_eq (code c) 0x2028 || nat_eq (code c) 0x2029)

unfoldable all_dots : String → Bool
all_dots [] = true
all_dots (c ∷ s) = is_dot c && all_dots s

abbrev and_then : Option String → (String → Option String) → Option String
and_then none f = none
and_then (some s) f = f s

abbrev or_else : Option String → Option String → Option String
or_else none o = o
or_else (some s) o = some s

abbrev is_line : Option String → Bool
is_line none = false
is_line (some s) = is_set s && all_dots s

-- /^arn:aws:iam::\d{12}:(role|user)\/.+$/
unfoldable pub is_principal_arn : String → Bool
unfolding strip_prefix strip_digits all_dots
is_principal_arn arn = is_line (
    and_then (strip_prefix "arn:aws:iam::" arn) (λ s.
      and_then (strip_digits 12 s)
        (λ t. or_else (strip_prefix ":role/" t) (strip_prefix ":user/" t))))

unfoldable pub build_principal_arn : String → String → String
build_principal_arn account_id role_name =
    String.◌++◌ "arn:aws:iam::" (String.◌++◌ account_id (String.◌++◌ ":role/" role_name))

-- `arnParts[i]`, where it is there and not empty.
abbrev part_or_empty : List String → ℕ → String
part_or_empty parts i = elim (get_elem? parts i) [ none ↦ "" | some p ↦ p ]

unfoldable pub get_account_id_from_arn : String → Result String
unfolding split_colon is_aws_account_id
get_account_id_from_arn arn =
    let parts = split_colon arn in
    let account_id = part_or_empty parts 4 in
    if ltb (length parts) 6
    then err (bad_request "Invalid ARN format")
    else if not (is_set account_id) || not (is_aws_account_id account_id)
    then err (bad_request "Invalid AWS Account ID")
    else ok account_id

abbrev named : Option String → Result String
named none = err (bad_request "Invalid IAM Role ARN format")
named (some role_name) =
    if is_set role_name then ok role_name else err (bad_request "Role name not found in ARN")

unfoldable pub get_role_name_from_arn : String → Result String
unfolding split_colon strip_prefix
get_role_name_from_arn arn =
    let parts = split_colon arn in
    if ltb (length parts) 6
    then err (bad_request "Invalid IAM Role ARN format")
    else named (strip_prefix "role/" (part_or_empty parts 5))
