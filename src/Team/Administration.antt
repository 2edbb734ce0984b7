-- ===== src/Team/Administration.antt =====
-- The teams with their accounts: packages/backend-data/src/dao/TeamsDAO.ts and TeamAccountsDAO.ts, and the
-- rest of packages/backend-services/src/team/TeamService.ts. The tables are the lists of their rows.
pub mod Cascade
pub mod Membership
mod Tests
use aws_access_bridge.Base.{
  ℕ, String, List, [], ◌∷◌, ◌++◌, map, Bool, not, ◌&&◌, ◌||◌, ◌==◌, any, keep_if, nat_eq, is_set,
  if◌then◌else◌,
}
use aws_access_bridge.Base.Errors.{ServiceError, bad_request, not_found, conflict, database}
use aws_access_bridge.Base.Exec.{Exec, pure, throw_if, modify, continue, ◌>>=◌, ◌>>◌}
use aws_access_bridge.Owner.{Owner}
use aws_access_bridge.Identity.Address.{trim}
use aws_access_bridge.Identity.Rows.{Registry}
use aws_access_bridge.Identity.Users.{ensure_user_email_exists}
use aws_access_bridge.Team.{missing_fields, already_member}
use aws_access_bridge.Team.Members.{Member, add_member_row}

-- A row of `teams`.
pub record TeamRow : Type 0 where
  pub team_id : String
  pub team_name : String
  pub created_at : ℕ
  pub created_by : String

-- A row of `team_accounts`.
pub record TeamAccount : Type 0 where
  pub team_id : String
  pub aws_account_id : String

pub record Teams : Type 0 where
  pub teams : List TeamRow
  pub members : List Member
  pub accounts : List TeamAccount
  pub registry : Registry

abbrev pub default_team_id : String
default_team_id = "00000000-0000-0000-0000-000000000000"

-- The name is unique, and a failed insertion throws.
unfoldable create_team_row : TeamRow → Exec Teams TeamRow
create_team_row row s =
    (throw_if (any (λ t. t.team_name == row.team_name || t.team_id == row.team_id) s.teams)
          (database "UNIQUE constraint failed: teams.team_name")
        >> modify (λ u. record u { teams = u.teams ++ row ∷ [] })
        >> pure row)
      s

unfoldable create_team : String → ℕ → String → String → Exec Teams TeamRow
create_team team_id now team_name created_by =
    throw_if (not (is_set (trim team_name))) (bad_request "Missing required field: teamName.")
    >> create_team_row (record {
      team_id = team_id;
      team_name = trim team_name;
      created_at = now;
      created_by = created_by;
    })

-- The batch of `deleteTeam`, which is applied whole or not at all.
unfoldable pub delete_team_rows : String → Teams → Teams
delete_team_rows team_id s = record s {
  accounts = keep_if (λ a. not (a.team_id == team_id)) s.accounts;
  members = keep_if (λ m. not (m.team_id == team_id)) s.members;
  teams = keep_if (λ t. not (t.team_id == team_id)) s.teams;
}

unfoldable pub delete_team : String → Exec Teams (Unit {0})
delete_team team_id =
    throw_if (not (is_set team_id)) (bad_request "Missing required field: teamId.")
    >> throw_if (team_id == default_team_id) (bad_request "Cannot delete the default team.")
    >> modify (delete_team_rows team_id)

-- A name that another team has is refused by the unique index.
unfoldable update_team_name : String → String → Exec Teams (Unit {0})
update_team_name team_id team_name =
    throw_if (not (is_set team_id) || not (is_set (trim team_name))) (bad_request missing_fields)
    >> λ s.
        (throw_if
              (any (λ t. t.team_id == team_id) s.teams
                && any (λ t. t.team_name == trim team_name && not (t.team_id == team_id)) s.teams)
              (database "UNIQUE constraint failed: teams.team_name")
            >> modify (λ u. record u {
              teams =
                  map
                    (λ t.
                      if t.team_id == team_id then record t { team_name = trim team_name } else t)
                    u.teams;
            }))
          s

abbrev pub in_registry : Exec Registry (Unit {0}) → Exec Teams (Unit {0})
in_registry m s = let (r, registry) = m s.registry in (r, record s { registry = registry })

-- The provisioning of the account, then the row.
unfoldable pub add_member :
    (ServiceError → Bool)
    → (String → Owner)
    → String
    → ℕ
    → String
    → String
    → String
    → Exec Teams (Unit {0})
add_member is_missing_schema owner_for new_id now team_id user_email role =
    throw_if (not (is_set team_id) || not (is_set user_email)) (bad_request missing_fields)
    >> in_registry
        (ensure_user_email_exists is_missing_schema new_id (owner_for user_email).anchor_email)
    >> λ s.
        let (added, members) = add_member_row team_id (owner_for user_email) role now s.members in
        throw_if (nat_eq added 0) (conflict already_member) (record s { members = members })

abbrev is_account_row : String → String → TeamAccount → Bool
is_account_row team_id aws_account_id a = a.team_id == team_id && a.aws_account_id == aws_account_id

-- `account_exists` is the lookup of the account.
unfoldable add_account : (String → Bool) → String → String → Exec Teams (Unit {0})
add_account account_exists team_id aws_account_id =
    throw_if (not (is_set team_id) || not (is_set aws_account_id)) (bad_request missing_fields)
    >> throw_if (not (account_exists aws_account_id))
        (not_found "That AWS account is not connected to this deployment.")
    >> modify (λ s. record s {
      accounts =
          if any (is_account_row team_id aws_account_id) s.accounts
          then s.accounts
          else s.accounts ++ record { team_id = team_id; aws_account_id = aws_account_id } ∷ [];
    })

unfoldable remove_account : String → String → Exec Teams (Unit {0})
remove_account team_id aws_account_id =
    throw_if (not (is_set team_id) || not (is_set aws_account_id)) (bad_request missing_fields)
    >> modify (λ s. record s {
      accounts = keep_if (λ a. not (is_account_row team_id aws_account_id a)) s.accounts;
    })

unfoldable list_accounts : String → Teams → List String
list_accounts team_id s =
    map (λ a. a.aws_account_id) (keep_if (λ a. a.team_id == team_id) s.accounts)
