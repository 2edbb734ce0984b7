-- ===== src/Team/Members.antt =====
-- The statements of packages/backend-data/src/dao/TeamMembersDAO.ts on the rows of `team_members`.
use aws_access_bridge.Base.{
  ℕ, suc, String, Option, none, some, List, [], ◌∷◌, ◌++◌, map, Bool, false, not, ◌&&◌, ◌||◌, ◌==◌,
  any, keep_if, if◌then◌else◌,
}
use aws_access_bridge.Owner.{Owner, owner_clause}

pub record Member : Type 0 where
  pub team_id : String
  pub user_email : String
  pub user_id : Option String
  pub role : String
  pub joined_at : ℕ

-- How many elements pass.
abbrev pub count_if : (Member → Bool) → List Member → ℕ
count_if p [] = 0
count_if p (m ∷ ms) = let rest = count_if p ms in if p m then suc rest else rest

-- `team_id = ? AND` the owner's clause
unfoldable pub selects : String → Owner → Member → Bool
selects team_id o m = m.team_id == team_id && owner_clause o m.user_id m.user_email

unfoldable pub is_admin : String → Member → Bool
is_admin team_id m = m.team_id == team_id && m.role == "admin"

unfoldable pub count_admins : String → List Member → ℕ
count_admins team_id = count_if (is_admin team_id)

-- `LIMIT 1`: the first row in the table's order.
unfoldable pub get_member_role : String → Owner → List Member → Option String
get_member_role team_id o [] = none
get_member_role team_id o (m ∷ ms) =
    let rest = get_member_role team_id o ms in if selects team_id o m then some m.role else rest

-- The statement's number of changes, and the rows it leaves.
unfoldable pub remove_member_rows : String → Owner → List Member → ℕ × List Member
remove_member_rows team_id o ms =
    (count_if (selects team_id o) ms, keep_if (λ m. not (selects team_id o m)) ms)

unfoldable pub update_member_rows : String → Owner → String → List Member → ℕ × List Member
update_member_rows team_id o role ms = (
  count_if (selects team_id o) ms,
  map (λ m. if selects team_id o m then record m { role = role } else m) ms,
)

abbrev pub same_id : Option String → Option String → Bool
same_id (some a) (some b) = a == b
same_id (some a) none = false
same_id none b = false

-- `INSERT OR IGNORE` under the primary key (team, address) and the unique index (team, id).
unfoldable pub add_member_row : String → Owner → String → ℕ → List Member → ℕ × List Member
add_member_row team_id o role now ms =
    if any
      (λ m. m.team_id == team_id && (m.user_email == o.anchor_email || same_id m.user_id o.user_id))
      ms
    then (0, ms)
    else (
      1,
      ms
          ++ record {
            team_id = team_id;
            user_email = o.anchor_email;
            user_id = o.user_id;
            role = role;
            joined_at = now;
          }
            ∷ [],
    )
