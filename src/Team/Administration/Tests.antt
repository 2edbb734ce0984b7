-- ===== src/Team/Administration/Tests.antt =====
-- Two teams, one of which is deleted.
use aws_access_bridge.Base.{String, ◌≡◌, ◌≢◌, refl, none, false, [], ◌∷◌}
use aws_access_bridge.Base.Errors.{err, conflict}
use aws_access_bridge.Identity.Users.{ensure_user_email_exists}
use aws_access_bridge.Team.{already_member}
use aws_access_bridge.Team.Members.{Member, add_member_row}
use aws_access_bridge.Team.Administration.{
  Teams, TeamRow, TeamAccount, delete_team, delete_team_rows, default_team_id, add_member,
}
use aws_access_bridge.Team.Administration.Cascade.{contents, delete_team-contents}

abbrev member_of : String → Member
member_of team = record {
  team_id = team;
  user_email = "ann@a.io";
  user_id = none;
  role = "admin";
  joined_at = 1;
}

abbrev team_of : String → TeamRow
team_of id = record { team_id = id; team_name = id; created_at = 1; created_by = "ann@a.io" }

abbrev account_of : String → TeamAccount
account_of team = record { team_id = team; aws_account_id = "123456789012" }

abbrev two_teams : Teams
two_teams = record {
  teams = team_of "a" ∷ team_of "b" ∷ [];
  members = member_of "a" ∷ member_of "b" ∷ [];
  accounts = account_of "b" ∷ account_of "a" ∷ [];
  registry = record { users = []; emails = λ a. none; users_fault = none; emails_fault = none };
}

delete_team-contents_example :
    ("a" ≢ default_team_id)
    × (contents "b" (delete_team_rows "a" two_teams) ≡ contents "b" two_teams)
unfolding delete_team
delete_team-contents_example =
    delete_team-contents "a" "b" two_teams (delete_team_rows "a" two_teams) refl

-- Ann is a member already.
member_again :
    (add_member
      (λ e. false)
      (λ email. record { user_id = none; anchor_email = email })
      "u9"
      5
      "a"
      "ann@a.io"
      "member"
      two_teams).0
    ≡ err (conflict already_member)
unfolding add_member ensure_user_email_exists add_member_row
member_again = refl
