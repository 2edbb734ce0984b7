-- ===== src/Identity/Rows.antt =====
-- The tables of the identity code: `UserEmailRow` of packages/backend-data/src/dao/UserEmailDAO.ts
-- and `UserMetadataIdentityInternal` of packages/backend-data/src/dao/UserMetadataDAO.ts. The first
-- is kept by its primary key, the second as its rows.
use aws_access_bridge.Base.{
  ℕ, String, Option, none, some, List, [], ◌∷◌, Bool, false, ◌==◌, if◌then◌else◌,
}
use aws_access_bridge.Base.Errors.{ServiceError, Result, ok, err}

-- A row of `user_emails`, without its key. `is_verified` is written as 0 or 1.
pub record UserEmail : Type 0 where
  pub user_id : String
  pub is_verified : Bool
  pub created_at : ℕ

-- The columns of `user_metadata` that identify an account.
pub record User : Type 0 where
  pub user_email : String
  pub id : Option String
  pub current_email : Option String
  pub federation_username : Option String

pub record Registry : Type 0 where
  pub users : List User
  pub emails : String → Option UserEmail
  -- How a statement on the columns `id` and `current_email` fails, and one on `user_emails`, where
  -- they do: a database without migrations/0032_user_identity.sql, or one that is down.
  pub users_fault : Option ServiceError
  pub emails_fault : Option ServiceError

-- A read that fails as the table's statements do.
abbrev pub read : {A : Type 0} → Option ServiceError → A → Result A
read none a = ok a
read (some e) a = err e

-- The first row that passes: `LIMIT 1`.
unfoldable pub first : (User → Bool) → List User → Option User
first p [] = none
first p (u ∷ us) = let rest = first p us in if p u then some u else rest

-- A column against a bound text: NULL equals none.
abbrev pub column_is : String → Option String → Bool
column_is x none = false
column_is x (some y) = y == x
