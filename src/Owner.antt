-- ===== src/Owner.antt =====
-- Whom a user-keyed statement is about: `Owner` of packages/backend-services/src/identity/resolveOwner.ts
-- and `ownerClause` of packages/backend-data/src/dao/AssumableRolesQueries.ts.
use aws_access_bridge.Base.{String, Option, none, some, Bool, false, ◌==◌}

pub record Owner : Type 0 where
  -- `null` for an address that no account has
  pub user_id : Option String
  pub anchor_email : String

-- `user_id = ? OR (user_id IS NULL AND user_email = ?)`: a comparison with NULL selects no row.
unfoldable pub owner_clause : Owner → Option String → String → Bool
owner_clause o none user_email = user_email == o.anchor_email
owner_clause o (some id) user_email = elim o.user_id [ none ↦ false | some u ↦ id == u ]
