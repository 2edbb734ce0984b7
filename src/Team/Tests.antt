-- ===== src/Team/Tests.antt =====
-- A team of an admin and a member.
use aws_access_bridge.Base.{◌≤◌, ◌≡◌, refl, String, none, List, [], ◌∷◌, arith}
use aws_access_bridge.Base.Errors.{err, conflict}
use aws_access_bridge.Owner.{Owner, owner_clause}
use aws_access_bridge.Team.{
  remove_member, update_member_role, last_admin, assert_not_the_last_admin,
}
use aws_access_bridge.Team.Members.{Member, count_admins, selects, is_admin, get_member_role}
use aws_access_bridge.Team.Admins.{members-count_admins}

abbrev owner_of : String → Owner
owner_of email = record { user_id = none; anchor_email = email }

abbrev two_members : List Member
two_members =
    record {
      team_id = "t";
      user_email = "ann@example";
      user_id = none;
      role = "admin";
      joined_at = 1;
    }
    ∷ record {
      team_id = "t";
      user_email = "ben@example";
      user_id = none;
      role = "member";
      joined_at = 2;
    }
    ∷ []

last_admin_stays :
    (remove_member owner_of "t" "ann@example" two_members).0 ≡ err (conflict last_admin)
unfolding remove_member assert_not_the_last_admin get_member_role selects owner_clause count_admins
    is_admin
last_admin_stays = refl

members-count_admins_example :
    (1 ≤ count_admins "t" (remove_member owner_of "t" "ann@example" two_members).1)
    × (1 ≤ count_admins "t" (update_member_role owner_of "t" "ann@example" "member" two_members).1)
unfolding selects owner_clause count_admins is_admin
members-count_admins_example =
    members-count_admins owner_of "t" "ann@example" two_members "member" (omega arith) (omega arith)
