-- ===== src/Access.antt =====
-- packages/backend-data/src/dao/AssumableRolesDAO.ts: who may assume which role. The table is the
-- list of its rows. A row's `hidden` is false where the column is NULL.
pub mod Laws
pub mod Service
use Prim.Native.String
use aws_access_bridge.Base.{
  String, Option, none, some, List, [], ◌∷◌, ◌++◌, map, Bool, true, false, not, ◌&&◌, ◌||◌, ◌==◌,
  any, keep_if, if◌then◌else◌,
}
use aws_access_bridge.Base.Errors.{Result, ok, err, forbidden}
use aws_access_bridge.Owner.{Owner, owner_clause}

-- A row of `assumable_roles`.
pub record Grant : Type 0 where
  pub user_email : String
  pub user_id : Option String
  pub aws_account_id : String
  pub role_name : String
  pub hidden : Bool

abbrev pub not_authorized : String → String → String
not_authorized account role =
    String.◌++◌ "Not authorized to assume role '"
      (String.◌++◌ role (String.◌++◌ "' in AWS account " (String.◌++◌ account ".")))

abbrev pub same_id : Option String → Option String → Bool
same_id (some a) (some b) = a == b
same_id (some a) none = false
same_id none b = false

module _ (o : Owner) (account role : String) where
  abbrev pub names : Grant → Bool
  names g = g.aws_account_id == account && g.role_name == role

  -- The rows that a statement of the owner's on this role selects.
  unfoldable pub is_for : Grant → Bool
  is_for g = owner_clause o g.user_id g.user_email && names g

  unfoldable pub verify_user_has_access_to_role : List Grant → Result (Unit {0})
  verify_user_has_access_to_role grants =
      if any is_for grants then ok tt else err (forbidden (not_authorized account role))

  -- The rows that an insertion conflicts with: by the primary key, or by the unique index of
  -- migrations/0032_user_identity.sql, where no two NULLs are equal.
  unfoldable pub conflicts : Grant → Bool
  conflicts g = (g.user_email == o.anchor_email || same_id g.user_id o.user_id) && names g

  -- `INSERT OR IGNORE`
  unfoldable pub grant_user_access_to_role : List Grant → List Grant
  grant_user_access_to_role grants =
      if any conflicts grants
      then grants
      else grants
        ++ record {
          user_email = o.anchor_email;
          user_id = o.user_id;
          aws_account_id = account;
          role_name = role;
          hidden = false;
        }
          ∷ []

  unfoldable pub revoke_user_access_to_role : List Grant → List Grant
  revoke_user_access_to_role = keep_if (λ g. not (is_for g))

  abbrev set_hidden : Bool → List Grant → List Grant
  set_hidden b = map (λ g. if is_for g then record g { hidden = b } else g)

  unfoldable hide_role : List Grant → List Grant
  hide_role = set_hidden true

  unfoldable unhide_role : List Grant → List Grant
  unhide_role = set_hidden false

unfoldable get_roles_by_user_and_account : Owner → String → List Grant → List String
get_roles_by_user_and_account o account grants =
    map (λ g. g.role_name)
      (keep_if (λ g. owner_clause o g.user_id g.user_email && g.aws_account_id == account) grants)
