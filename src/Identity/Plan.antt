-- ===== src/Identity/Plan.antt =====
-- scripts/ops/change-email-plan.ts: the statements that an operator's change of an address applies,
-- and scripts/ops/change-email.ts, which decides whether they are applied. A statement is its kind
-- and the values in it, in place of its text.
pub mod Window
mod Tests
use Prim.Native.Char.{Char, code}
use Prim.Native.String.{[], ◌∷◌}
use aws_access_bridge.Base.{
  ℕ, String, Option, none, some, List, [], ◌∷◌, map, Bool, true, false, not, ◌&&◌, ◌||◌, ◌==◌, leb,
  nat_eq, if◌then◌else◌,
}
use aws_access_bridge.Credential.Vault.{update}
use aws_access_bridge.Identity.Address.{lower}
use aws_access_bridge.Identity.Rows.{User, UserEmail, Registry, column_is}

abbrev is_letter_or_digit : ℕ → Bool
is_letter_or_digit n =
    leb b'A' n && leb n b'Z' || leb b'a' n && leb n b'z' || leb b'0' n && leb n b'9'

-- `[A-Za-z0-9.-]`
abbrev in_domain : ℕ → Bool
in_domain n = is_letter_or_digit n || nat_eq n b'.' || nat_eq n b'-'

-- `[A-Za-z0-9._%+-]`
abbrev in_local_part : ℕ → Bool
in_local_part n = in_domain n || nat_eq n b'_' || nat_eq n b'%' || nat_eq n b'+'

-- `[A-Za-z0-9_.@-]`
abbrev in_token : ℕ → Bool
in_token n = in_domain n || nat_eq n b'_' || nat_eq n b'@'

-- A text of one or more characters of a class.
unfoldable pub all_in : (ℕ → Bool) → String → Bool
all_in p [] = false
all_in p (c ∷ []) = p (code c)
all_in p (c ∷ d ∷ s) = p (code c) && all_in p (d ∷ s)

-- `[A-Za-z0-9._%+-]+@[A-Za-z0-9.-]+`, where `begun` says whether a character is read. The first class
-- has no `@`.
unfoldable pub is_plain_address : Bool → String → Bool
unfolding all_in
is_plain_address begun [] = false
is_plain_address begun (c ∷ s) =
    (begun && nat_eq (code c) b'@' && all_in in_domain s)
    || (in_local_part (code c) && is_plain_address true s)

-- The value between the quotes; `none` where it throws.
unfoldable pub sql_email : String → Option String
unfolding is_plain_address
sql_email value = if is_plain_address false value then some (lower value) else none

unfoldable pub sql_token : String → Option String
unfolding all_in
sql_token value = if all_in in_token value then some value else none

pub record RegistryHolder : Type 0 where
  pub user_id : String
  pub is_verified : Bool

unfoldable pub is_taken_by_another_account : Option RegistryHolder → String → Bool
is_taken_by_another_account none account_id = false
is_taken_by_another_account (some holder) account_id =
    holder.is_verified && not (holder.user_id == account_id)

-- The claim of the target, the move of the account and the revocation of its other addresses.
pub data Statement : Type 0 where
  claim : String → String → ℕ → Statement
  move : String → String → Statement
  revoke : String → String → Statement

unfoldable pub change_email_statements : String → String → ℕ → List Statement
change_email_statements target account_id now =
    claim target account_id now ∷ move target account_id ∷ revoke target account_id ∷ []

-- `ON CONFLICT(email) DO UPDATE`
abbrev pub claimed : String → ℕ → Option UserEmail → UserEmail
claimed account_id now none = record { user_id = account_id; is_verified = true; created_at = now }
claimed account_id now (some old) = record old { user_id = account_id; is_verified = true }

abbrev pub revoked_unless : Bool → String → Option UserEmail → Option UserEmail
revoked_unless is_target account_id none = none
revoked_unless is_target account_id (some row) =
    if row.user_id == account_id && not is_target
    then some (record row { is_verified = false })
    else some row

unfoldable pub execute : Statement → Registry → Registry
execute (claim target account_id now) s = record s {
  emails = update s.emails target (some (claimed account_id now (s.emails target)));
}
execute (move target account_id) s = record s {
  users =
      map (λ u. if column_is account_id u.id then record u { current_email = some target } else u)
        s.users;
}
execute (revoke target account_id) s = record s {
  emails = λ email. revoked_unless (email == target) account_id (s.emails email);
}

-- The states after each statement.
unfoldable pub states : List Statement → Registry → List Registry
states [] s = []
states (q ∷ qs) s = execute q s ∷ states qs (execute q s)

unfoldable pub execute_all : List Statement → Registry → Registry
execute_all [] s = s
execute_all (q ∷ qs) s = execute_all qs (execute q s)
