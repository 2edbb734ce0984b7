-- ===== src/Identity/Emails.antt =====
-- packages/backend-data/src/dao/UserEmailDAO.ts: the statements on `user_emails`.
use aws_access_bridge.Base.{
  ℕ, String, Option, none, some, Bool, true, false, not, ◌&&◌, ◌==◌, if◌then◌else◌,
}
use aws_access_bridge.Base.Errors.{Result, ok, err}
use aws_access_bridge.Base.Exec.{Exec}
use aws_access_bridge.Credential.Vault.{update}
use aws_access_bridge.Identity.Address.{lower}
use aws_access_bridge.Identity.Rows.{UserEmail, Registry, read}

unfoldable pub get : String → Registry → Result (Option UserEmail)
get email s = read s.emails_fault (s.emails email)

-- The row that the upsert leaves where its row is given, unless it changes none.
abbrev pub upserted : UserEmail → Option UserEmail → Option UserEmail
upserted new none = some new
upserted new (some old) =
    if old.is_verified
    then none
    else some (record old { user_id = new.user_id; is_verified = new.is_verified })

abbrev pub claimed_by_other : Option UserEmail → Bool
claimed_by_other none = false
claimed_by_other (some row) = row.is_verified

-- The upsert, and whether it has changed a row: the address is claimed, or claimed already.
abbrev pub put : String → Option UserEmail → Exec Registry Bool
put email none s = (ok false, s)
put email (some row) s = (ok true, record s { emails = update s.emails email (some row) })

abbrev pub upsert : String → UserEmail → Exec Registry Bool
upsert email new s = put email (upserted new (s.emails email)) s

abbrev pub register_over : Result (Option UserEmail) → String → UserEmail → Exec Registry Bool
register_over (err e) email new s = (err e, s)
register_over (ok existing) email new s =
    if claimed_by_other existing then (ok false, s) else upsert email new s

-- `true` is 'claimed', `false` is 'already-claimed'.
unfoldable pub register : String → String → Bool → ℕ → Exec Registry Bool
unfolding get
register email user_id is_verified now s =
    register_over (get (lower email) s) (lower email)
      (record { user_id = user_id; is_verified = is_verified; created_at = now }) s

abbrev pub revoked : String → Bool → UserEmail → UserEmail
revoked user_id excepted row =
    if row.user_id == user_id && not excepted then record row { is_verified = false } else row

abbrev revoke_at : String → Bool → Option UserEmail → Option UserEmail
revoke_at user_id excepted none = none
revoke_at user_id excepted (some row) = some (revoked user_id excepted row)

unfoldable pub revoke_all_verified : String → String → Registry → Registry
revoke_all_verified user_id except_email s = record s {
  emails = λ email. revoke_at user_id (email == lower except_email) (s.emails email);
}
