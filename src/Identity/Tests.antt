-- ===== src/Identity/Tests.antt =====
-- Two accounts; the first has moved before and has an old, revoked address.
use aws_access_bridge.Base.{
  String, ◌≡◌, refl, Option, none, some, [], ◌∷◌, Bool, true, false, differ, ◌==◌, if◌then◌else◌,
}
use aws_access_bridge.Base.Errors.{ServiceError, ok, err}
use aws_access_bridge.Identity.Address.{
  lower, trim, trim_start, trim_end, is_email, is_local_rest, is_domain_rest, all_atoms,
}
use aws_access_bridge.Identity.Rows.{UserEmail, User, Registry, first}
use aws_access_bridge.Identity.Emails.{get, register, revoke_all_verified}
use aws_access_bridge.Identity.Users.{get_by_id, get_by_current_email, set_current_email}
use aws_access_bridge.Identity.Resolver.{AccountIdentity, Scope, load, resolve_account, address_of}
use aws_access_bridge.Identity.Addresses.{
  set_primary_email, link_verified_email, in_use, is_claimed_by_other, move_to,
}
use aws_access_bridge.Identity.Change.{set_primary_email-others}
use aws_access_bridge.Identity.Taken.{set_primary_email-taken}
use aws_access_bridge.Identity.Steps.{Steps, Step, Steps-holder}
use aws_access_bridge.Identity.Memo.{change_in_scope}

abbrev no_error : ServiceError → Bool
no_error e = false

abbrev ann : User
ann = record {
  user_email = "ann@a.io";
  id = some "u1";
  current_email = some "ann@b.io";
  federation_username = none;
}

abbrev ben : User
ben = record {
  user_email = "ben@a.io";
  id = some "u2";
  current_email = some "ben@a.io";
  federation_username = none;
}

abbrev row_of : String → Bool → UserEmail
row_of user_id b = record { user_id = user_id; is_verified = b; created_at = 1 }

abbrev addresses : String → Option UserEmail
addresses a =
    if a == "ann@a.io"
    then some (row_of "u1" false)
    else if a == "ann@b.io"
    then some (row_of "u1" true)
    else if a == "ann@c.io"
    then some (row_of "u1" true)
    else if a == "ben@a.io"
    then some (row_of "u2" true)
    else none

abbrev two_accounts : Registry
two_accounts = record {
  users = ann ∷ ben ∷ [];
  emails = addresses;
  users_fault = none;
  emails_fault = none;
}

abbrev moved_account : AccountIdentity
moved_account = record { id = "u1"; email = "Ann@d.io"; anchor_email = "ann@a.io" }

set_primary_email-others_example :
    load no_error "ann@b.io" (set_primary_email no_error "u1" " Ann@d.io " 9 two_accounts).1
    ≡ ok none
unfolding trim trim_start trim_end lower is_email is_local_rest is_domain_rest all_atoms
    set_primary_email get_by_id first address_of is_claimed_by_other get get_by_current_email
    move_to register revoke_all_verified set_current_email
set_primary_email-others_example =
    set_primary_email-others no_error "u1" " Ann@d.io " 9 ann two_accounts
      (set_primary_email no_error "u1" " Ann@d.io " 9 two_accounts).1 moved_account refl refl refl
      "ann@b.io" (row_of "u1" true) (differ "ann@b.io" "ann@d.io" refl) refl

-- An address of Ann's own that is verified already.
set_primary_email-taken_example :
    set_primary_email no_error "u1" "ann@c.io" 9 two_accounts ≡ (err in_use, two_accounts)
unfolding trim trim_start trim_end lower is_email is_local_rest is_domain_rest all_atoms get_by_id
    first address_of
set_primary_email-taken_example =
    set_primary_email-taken no_error "u1" "ann@c.io" 9 two_accounts ann (row_of "u1" true) refl refl
      refl refl refl refl refl

-- Ann tries to take Ben's address.
Steps-holder_example :
    (link_verified_email "u1" "ben@a.io" 9 two_accounts).1.emails "ben@a.io"
    ≡ some (row_of "u2" true)
Steps-holder_example =
    Steps-holder no_error "u2" "ben@a.io" (row_of "u2" true) two_accounts
      (link_verified_email "u1" "ben@a.io" 9 two_accounts).1 refl refl refl
      (Steps.step "u1" (differ "u1" "u2" refl) (Step.links "u1" "ben@a.io" 9 two_accounts)
        (Steps.done (link_verified_email "u1" "ben@a.io" 9 two_accounts).1))

abbrev empty_scope : Scope
empty_scope = record { registry = two_accounts; by_email = λ a. none }

abbrev ann_now : AccountIdentity
ann_now = record { id = "u1"; email = "ann@b.io"; anchor_email = "ann@a.io" }

abbrev known_scope : Scope
known_scope = record {
  registry = two_accounts;
  by_email = λ a. if a == "ann@b.io" then some (some ann_now) else none;
}

stale_resolution :
    (resolve_account no_error "ann@b.io"
      (change_in_scope no_error "u1" " Ann@d.io " 9 known_scope).1).0
    ≡ ok (some ann_now)
unfolding trim trim_start trim_end lower is_email is_local_rest is_domain_rest all_atoms
    set_primary_email get_by_id first address_of is_claimed_by_other get get_by_current_email
    move_to register revoke_all_verified set_current_email change_in_scope resolve_account
stale_resolution = refl

-- The registry itself no longer knows the address.
stale_address :
    load no_error "ann@b.io" (change_in_scope no_error "u1" " Ann@d.io " 9 known_scope).1.registry
    ≡ ok none
unfolding trim trim_start trim_end lower is_email is_local_rest is_domain_rest all_atoms
    set_primary_email get_by_id first address_of is_claimed_by_other get get_by_current_email
    move_to register revoke_all_verified set_current_email change_in_scope load
stale_address = refl
