-- ===== src/Identity/Addresses.antt =====
-- The addresses of an account: packages/backend-services/src/identity/AddressRegistryService.ts.
use aws_access_bridge.Base.{
  ℕ, String, Option, none, some, Bool, true, false, not, ◌&&◌, ◌==◌, is_set, text_or_empty,
  if◌then◌else◌,
}
use aws_access_bridge.Base.Errors.{ServiceError, Result, bad_request, conflict}
use aws_access_bridge.Base.Exec.{Exec, pure, throw, throw_if, modify, ◌>>◌, ◌>>=◌}
use aws_access_bridge.Identity.Address.{lower, trim, is_email}
use aws_access_bridge.Identity.Rows.{User, UserEmail, Registry}
use aws_access_bridge.Identity.Emails.{get, register, revoke_all_verified}
use aws_access_bridge.Identity.Users.{get_by_id, get_by_current_email, set_current_email}
use aws_access_bridge.Identity.Resolver.{AccountIdentity, address_of, tolerate}

abbrev pub verified_for_other : String → Option UserEmail → Bool
verified_for_other user_id none = false
verified_for_other user_id (some row) = row.is_verified && not (row.user_id == user_id)

abbrev pub held_by_other : String → Option User → Bool
held_by_other user_id none = false
held_by_other user_id (some u) = is_set (text_or_empty u.id) && not (text_or_empty u.id == user_id)

abbrev pub reads : {A : Type 0} → (Registry → Result A) → Exec Registry A
reads f s = (f s, s)

abbrev pub in_use : ServiceError
in_use = conflict "Email is already in use by another account."

abbrev pub identity : User → String → AccountIdentity
identity u email = record { id = text_or_empty u.id; email = email; anchor_email = u.user_email }

-- The claim, the revocation of the other addresses and the move, in this order.
unfoldable pub move_to : User → String → ℕ → Exec Registry AccountIdentity
move_to u email now = register email (text_or_empty u.id) true now >>= λ claimed.
    throw_if (not claimed) in_use
    >> modify (revoke_all_verified (text_or_empty u.id) email)
    >> modify (set_current_email (text_or_empty u.id) email)
    >> pure (identity u email)

unfoldable pub link_verified_email : String → String → ℕ → Exec Registry (Unit {0})
link_verified_email user_id email now =
    let address = trim email in
    throw_if (not (is_email address)) (bad_request "Invalid email address.")
    >> (register address user_id true now >>= λ claimed. throw_if (not claimed) in_use)

module _ (is_missing_schema : ServiceError → Bool) where
  unfoldable pub is_claimed_by_other : String → String → Exec Registry Bool
  is_claimed_by_other email user_id =
      reads (λ s. tolerate is_missing_schema (get (lower email) s)) >>= λ registered.
      if verified_for_other user_id registered
      then pure true
      else reads (λ s. tolerate is_missing_schema (get_by_current_email email s)) >>= λ owner.
          pure (held_by_other user_id owner)

  abbrev pub change_address : Bool → User → String → ℕ → Exec Registry AccountIdentity
  change_address true u email now = pure (identity u (address_of u))
  change_address false u email now = is_claimed_by_other email (text_or_empty u.id) >>= λ claimed.
      throw_if claimed in_use >> move_to u email now

  abbrev pub change_user : Option User → String → ℕ → Exec Registry AccountIdentity
  change_user none email now = throw (bad_request "User not found.")
  change_user (some u) email now =
      throw_if (not (is_set (text_or_empty u.id))) (bad_request "User not found.")
      >> change_address (lower (address_of u) == lower email) u email now

  unfoldable pub set_primary_email : String → String → ℕ → Exec Registry AccountIdentity
  set_primary_email user_id new_email now =
      let email = trim new_email in
      throw_if (not (is_email email)) (bad_request "Invalid email address.")
      >> (reads (get_by_id user_id) >>= λ row. change_user row email now)
