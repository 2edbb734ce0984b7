-- ===== src/Identity/Resolver.antt =====
-- The account behind an address: packages/backend-services/src/identity/UserIdentityService.ts.
-- `is_missing_schema` is the test of the database package for a statement on a table or a column
-- that is not there.
use aws_access_bridge.Base.{
  String, Option, none, some, Bool, true, false, not, ◌==◌, is_set, text_or_empty, if◌then◌else◌,
}
use aws_access_bridge.Base.Errors.{ServiceError, Result, ok, err, ◌>>=◌}
use aws_access_bridge.Base.Exec.{Exec}
use aws_access_bridge.Credential.Vault.{update}
use aws_access_bridge.Identity.Address.{lower, trim}
use aws_access_bridge.Identity.Rows.{User, UserEmail, Registry}
use aws_access_bridge.Identity.Emails.{get}
use aws_access_bridge.Identity.Users.{get_by_id, get_by_current_email, get_by_anchor}

pub record AccountIdentity : Type 0 where
  pub id : String
  pub email : String
  pub anchor_email : String

abbrev current_or : String → Option String → String
current_or anchor none = anchor
current_or anchor (some email) = email

-- `(row.current_email ?? row.user_email ?? '').trim()`
unfoldable pub address_of : User → String
address_of u = trim (current_or u.user_email u.current_email)

-- `row?.id` where it is there and not empty
abbrev account_if : Bool → User → Option AccountIdentity
account_if false u = none
account_if true u =
    some (record { id = text_or_empty u.id; email = address_of u; anchor_email = u.user_email })

abbrev pub account_of : Option User → Option AccountIdentity
account_of none = none
account_of (some u) = account_if (is_set (text_or_empty u.id)) u

abbrev has_moved : String → Option String → Bool
has_moved email none = false
has_moved email (some current) = not (lower (trim current) == lower (trim email))

abbrev anchored : String → Option User → Option AccountIdentity
anchored email none = none
anchored email (some u) =
    if has_moved email u.current_email
    then none
    else some
        (record { id = text_or_empty u.id; email = address_of u; anchor_email = u.user_email })

-- The account of a row that was found by its current address, or the rest of the search.
abbrev or_anchored :
    Option AccountIdentity → Result (Option AccountIdentity) → Result (Option AccountIdentity)
or_anchored none rest = rest
or_anchored (some account) rest = ok (some account)

-- The resolutions of one scope, by address, beside the store.
pub record Scope : Type 0 where
  pub registry : Registry
  pub by_email : String → Option (Option AccountIdentity)

abbrev pub remember :
    String → Scope → Result (Option AccountIdentity) → Result (Option AccountIdentity) × Scope
remember address s (err e) = (err e, s)
remember address s (ok account) =
    (ok account, record s { by_email = update s.by_email address (some account) })

module _ (is_missing_schema : ServiceError → Bool) where
  -- `.catch((error) => { if (isMissingSchemaError(error)) return null; throw error; })`
  abbrev pub tolerate : {A : Type 0} → Result (Option A) → Result (Option A)
  tolerate (ok found) = ok found
  tolerate (err e) = if is_missing_schema e then ok none else err e

  unfoldable pub hydrate : String → Registry → Result (Option AccountIdentity)
  hydrate user_id s = tolerate (get_by_id user_id s) >>= λ row. ok (account_of row)

  unfoldable pub find_by_anchor : String → Registry → Result (Option AccountIdentity)
  find_by_anchor email s = tolerate (get_by_anchor email s) >>= λ row. ok (anchored email row)

  unfoldable pub load_unregistered : String → Registry → Result (Option AccountIdentity)
  load_unregistered email s = tolerate (get_by_current_email email s) >>= λ row.
      or_anchored (account_of row) (find_by_anchor email s)

  abbrev pub load_from : String → Registry → Option UserEmail → Result (Option AccountIdentity)
  load_from email s none = load_unregistered email s
  load_from email s (some row) = if row.is_verified then hydrate row.user_id s else ok none

  unfoldable pub load : String → Registry → Result (Option AccountIdentity)
  load email s = tolerate (get (lower email) s) >>= load_from email s

  abbrev pub resolve_from :
      String → Scope → Option (Option AccountIdentity) → Result (Option AccountIdentity) × Scope
  resolve_from address s (some account) = (ok account, s)
  resolve_from address s none = remember address s (load address s.registry)

  unfoldable pub resolve_account : String → Exec Scope (Option AccountIdentity)
  resolve_account email s =
      let address = trim email in
      if not (is_set address) then (ok none, s) else resolve_from address s (s.by_email address)
