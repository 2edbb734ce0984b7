-- ===== src/Team.antt =====
-- The membership of teams: packages/backend-data/src/dao/TeamMembersDAO.ts, and the removal and the change of role of
-- packages/backend-services/src/team/TeamService.ts.
pub mod Members
pub mod Admins
pub mod Administration
mod Tests
use aws_access_bridge.Base.{
  ℕ, zero, String, Option, none, some, List, Bool, not, ◌&&◌, ◌||◌, ◌==◌, leb, nat_eq, is_set,
  if◌then◌else◌,
}
use aws_access_bridge.Base.Errors.{bad_request, conflict, not_found}
use aws_access_bridge.Base.Exec.{Exec, pure, throw, throw_if, ◌>>=◌, ◌>>◌}
use aws_access_bridge.Owner.{Owner}
use aws_access_bridge.Team.Members.{
  Member, add_member_row, remove_member_rows, update_member_rows, get_member_role, count_admins,
}

abbrev pub missing_fields : String
missing_fields = "Missing required fields."

abbrev pub already_member : String
already_member = "That user is already a member of this team."

abbrev no_member : String
no_member = "That user is not a member of this team."

abbrev pub last_admin : String
last_admin = "A team must keep at least one admin."

abbrev is_admin_role : Option String → Bool
is_admin_role none = Bool.false
is_admin_role (some r) = r == "admin"

abbrev is_none : Option String → Bool
is_none none = Bool.true
is_none (some r) = Bool.false

module _ (owner_for : String → Owner) where
  -- The tests before a write, on the rows as they are.
  unfoldable pub assert_not_the_last_admin : String → Owner → Exec (List Member) Unit
  assert_not_the_last_admin team_id owner ms =
      throw_if (is_admin_role (get_member_role team_id owner ms) && leb (count_admins team_id ms) 1)
        (conflict last_admin) ms

  unfoldable pub remove_member : String → String → Exec (List Member) Unit
  remove_member team_id user_email =
      throw_if (not (is_set team_id) || not (is_set user_email)) (bad_request missing_fields)
      >> λ ms.
          let owner = owner_for user_email in
          (throw_if (is_none (get_member_role team_id owner ms)) (not_found no_member)
              >> assert_not_the_last_admin team_id owner
              >> λ ms'.
                  let (removed, left) = remove_member_rows team_id owner ms' in
                  throw_if (nat_eq removed 0) (not_found no_member) left)
            ms

  unfoldable pub update_member_role : String → String → String → Exec (List Member) Unit
  update_member_role team_id user_email role =
      throw_if (not (is_set team_id) || not (is_set user_email) || not (is_set role))
        (bad_request missing_fields)
      >> λ ms.
          let owner = owner_for user_email in
          let current = get_member_role team_id owner ms in
          (throw_if (is_none current) (not_found no_member)
              >> (if is_admin_role current && not (role == "admin")
                  then assert_not_the_last_admin team_id owner
                  else pure tt)
              >> λ ms'.
                  let (changed, after) = update_member_rows team_id owner role ms' in
                  throw_if (nat_eq changed 0) (not_found no_member) after)
            ms
