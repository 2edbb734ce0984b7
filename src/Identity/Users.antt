-- ===== src/Identity/Users.antt =====
-- packages/backend-data/src/dao/UserMetadataDAO.ts: the statements on `user_metadata`.
use aws_access_bridge.Base.{
  String, Option, none, some, List, [], ◌∷◌, ◌++◌, map, Bool, false, ◌||◌, ◌==◌, any, present,
  if◌then◌else◌,
}
use aws_access_bridge.Base.Errors.{ServiceError, Result, ok, err}
use aws_access_bridge.Base.Exec.{Exec, modify, ◌>>◌}
use aws_access_bridge.Identity.Address.{lower}
use aws_access_bridge.Identity.Rows.{User, Registry, read, first, column_is}

unfoldable pub get_by_id : String → Registry → Result (Option User)
unfolding first
get_by_id user_id s = read s.users_fault (first (λ u. column_is user_id u.id) s.users)

unfoldable pub get_by_current_email : String → Registry → Result (Option User)
unfolding first
get_by_current_email email s =
    read s.users_fault (first (λ u. column_is (lower email) u.current_email) s.users)

unfoldable pub get_by_anchor : String → Registry → Result (Option User)
unfolding first
get_by_anchor email s = read s.users_fault (first (λ u. u.user_email == email) s.users)

abbrev pub with_address : String → String → User → User
with_address user_id email u =
    if column_is user_id u.id then record u { current_email = some (lower email) } else u

unfoldable pub set_current_email : String → String → Registry → Registry
set_current_email user_id email s = record s { users = map (with_address user_id email) s.users }

-- `INSERT OR IGNORE` under the primary key and the unique indexes on `id` and `current_email`.
abbrev insert_or_ignore : String → Option String → Option String → List User → List User
insert_or_ignore email id current us =
    if any
      (λ u.
        u.user_email == email
        || elim id [ none ↦ false | some x ↦ column_is x u.id ]
        || elim current [ none ↦ false | some x ↦ column_is x u.current_email ])
      us
    then us
    else us
      ++ record { user_email = email; id = id; current_email = current; federation_username = none }
        ∷ []

-- The insertion, by how the statement with the identity columns fails; `new_id` is what `newId`
-- draws.
abbrev pub insert_over :
    (ServiceError → Bool) → String → String → Option ServiceError → Exec Registry (Unit {0})
insert_over is_missing_schema new_id email none s =
    (ok tt, record s { users = insert_or_ignore email (some new_id) (some (lower email)) s.users })
insert_over is_missing_schema new_id email (some e) s =
    if is_missing_schema e
    then (ok tt, record s { users = insert_or_ignore email none none s.users })
    else (err e, s)

unfoldable pub ensure_user_email_exists :
    (ServiceError → Bool) → String → String → Exec Registry (Unit {0})
ensure_user_email_exists is_missing_schema new_id email s =
    insert_over is_missing_schema new_id email s.users_fault s

abbrev federation_username_of : Option User → Option String
federation_username_of none = none
federation_username_of (some u) = u.federation_username

unfoldable stored_username : String → List User → Option String
unfolding first
stored_username email us = federation_username_of (first (λ u. u.user_email == email) us)

-- `COALESCE(federation_username, ?)`
abbrev coalesce : String → Option String → Option String
coalesce new none = some new
coalesce new (some old) = some old

unfoldable keep_or_set_username : String → String → Registry → Registry
keep_or_set_username email candidate s = record s {
  users =
      map
        (λ u.
          if u.user_email == email
          then record u { federation_username = coalesce candidate u.federation_username }
          else u)
        s.users;
}

abbrev username_or : String → Option String → String
username_or candidate none = candidate
username_or candidate (some name) = name

-- `candidate` is the name that is drawn.
unfoldable get_or_create_federation_username :
    (ServiceError → Bool) → String → String → String → Exec Registry String
unfolding stored_username ensure_user_email_exists keep_or_set_username
get_or_create_federation_username is_missing_schema new_id candidate email s =
    if present (stored_username email s.users)
    then (ok (username_or "" (stored_username email s.users)), s)
    else (ensure_user_email_exists is_missing_schema new_id email
          >> modify (keep_or_set_username email candidate)
          >> λ t. (ok (username_or candidate (stored_username email t.users)), t))
        s
