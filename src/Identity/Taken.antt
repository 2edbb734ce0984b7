-- ===== src/Identity/Taken.antt =====
-- A verified address stays with its account.
use aws_access_bridge.Base.{
  ℕ, String, ◌≡◌, refl, ◌∙◌, Option, none, some, Bool, true, false, inl, inr, Bool-cases,
  text_or_empty, ◌==◌, is_set,
}
use aws_access_bridge.Base.Errors.{ServiceError, ok, err}
use aws_access_bridge.Identity.Address.{lower, trim, is_email}
use aws_access_bridge.Identity.Rows.{UserEmail, User, Registry, first, column_is}
use aws_access_bridge.Identity.Emails.{get, register}
use aws_access_bridge.Identity.Users.{get_by_id, get_by_current_email}
use aws_access_bridge.Identity.Moves.{read-eq-ok}
use aws_access_bridge.Identity.Primary.{read-ok}
use aws_access_bridge.Identity.Resolver.{address_of}
use aws_access_bridge.Identity.Addresses.{
  set_primary_email, in_use, move_to, change_address, is_claimed_by_other, verified_for_other,
  held_by_other,
}

is_claimed_by_other-returns :
    (m : ServiceError → Bool) (email user_id : String) (s : Registry) (row : Option UserEmail)
    (u : Option User)
    → get (lower email) s ≡ ok row
    → get_by_current_email email s ≡ ok u
    → (claimed : Bool) × (is_claimed_by_other m email user_id s ≡ (ok claimed, s))
unfolding is_claimed_by_other
is_claimed_by_other-returns m email user_id s row u e f =
    elim (Bool-cases (verified_for_other user_id row)) [
      | inl v ↦ (true, rw (e, v) refl)
      | inr v ↦ (held_by_other user_id u, rw (e, v, f) refl)
    ]

module _ (m : ServiceError → Bool) (email : String) (now : ℕ) (s : Registry) (row : UserEmail)
    (here : get (lower email) s ≡ ok (some row)) (verified : row.is_verified ≡ true) where
  register-taken : (user_id : String) → register email user_id true now s ≡ (ok false, s)
  unfolding register
  register-taken user_id = rw (here, verified) refl

  move_to-taken : (u : User) → move_to u email now s ≡ (err in_use, s)
  unfolding move_to
  move_to-taken u = rw (register-taken (text_or_empty u.id)) refl

  change_address-taken :
      (u : User) (claimed : Bool)
      → is_claimed_by_other m email (text_or_empty u.id) s ≡ (ok claimed, s)
      → change_address m false u email now s ≡ (err in_use, s)
  change_address-taken u true e = rw e refl
  change_address-taken u false e = rw e (move_to-taken u)

set_primary_email-change :
    (m : ServiceError → Bool) (user_id new : String) (now : ℕ) (s : Registry) (u : User)
    → is_email (trim new) ≡ true
    → get_by_id user_id s ≡ ok (some u)
    → is_set (text_or_empty u.id) ≡ true
    → (lower (address_of u) == lower (trim new)) ≡ false
    → set_primary_email m user_id new now s ≡ change_address m false u (trim new) now s
unfolding set_primary_email
set_primary_email-change m user_id new now s u valid found set differs =
    rw (valid, found, set, differs) refl

-- `setPrimaryEmail` refuses an address that is verified, with the message that another account
-- uses it, and changes nothing; whoever holds the address, the account itself included. This is for an
-- account that is found, with an identifier and another current address, and a valid address.
pub set_primary_email-taken :
    (m : ServiceError → Bool) (user_id new : String) (now : ℕ) (s : Registry) (u : User)
    (row : UserEmail)
    → is_email (trim new) ≡ true
    → get_by_id user_id s ≡ ok (some u)
    → is_set (text_or_empty u.id) ≡ true
    → (lower (address_of u) == lower (trim new)) ≡ false
    → s.emails_fault ≡ none
    → s.emails (lower (trim new)) ≡ some row
    → row.is_verified ≡ true
    → set_primary_email m user_id new now s ≡ (err in_use, s)
unfolding get_by_id get_by_current_email get
set_primary_email-taken m user_id new now s u row valid found set differs up here verified =
    let (ready, _) =
      read-eq-ok s.users_fault (first (λ v. column_is user_id v.id) s.users) (some u) found in
    let seen : get (lower (trim new)) s ≡ ok (some row) = read-ok s.emails_fault _ _ up here in
    let owner = first (λ v. column_is (lower (trim new)) v.current_email) s.users in
    let (claimed, returns) =
      is_claimed_by_other-returns m (trim new) (text_or_empty u.id) s (some row) owner seen
        (read-ok s.users_fault owner owner ready refl) in
    set_primary_email-change m user_id new now s u valid found set differs
    ∙ change_address-taken m (trim new) now s row seen verified u claimed returns
