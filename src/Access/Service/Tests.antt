-- ===== src/Access/Service/Tests.antt =====
-- Grants to an account that has an address, and to an address that no account has.
use aws_access_bridge.Base.{
  String, ◌≡◌, ◌≢◌, ◌⊎◌, inr, refl, Option, none, some, List, [], ◌∷◌, Bool, true, false, ◌==◌, any,
  if◌then◌else◌, differ,
}
use aws_access_bridge.Base.Errors.{ServiceError, ok, err, forbidden}
use aws_access_bridge.Owner.{Owner, owner_clause}
use aws_access_bridge.Arn.{is_aws_account_id}
use aws_access_bridge.Access.{
  Grant, not_authorized, is_for, conflicts, verify_user_has_access_to_role,
  grant_user_access_to_role,
}
use aws_access_bridge.Identity.Address.{lower, trim, trim_start, trim_end}
use aws_access_bridge.Identity.Rows.{User, first}
use aws_access_bridge.Identity.Emails.{get}
use aws_access_bridge.Identity.Users.{
  get_by_id, get_by_current_email, get_by_anchor, ensure_user_email_exists,
}
use aws_access_bridge.Identity.Resolver.{
  AccountIdentity, Scope, hydrate, load_unregistered, find_by_anchor, load, resolve_account,
  address_of,
}
use aws_access_bridge.Access.Service.{AccessStore, owner_of, grant_access, revoke_access}
use aws_access_bridge.Access.Service.Laws.{grant_access-verify, revoke_access-verify}

abbrev no_error : ServiceError → Bool
no_error e = false

-- Alice's grant from before her account had an id, and another user's.
abbrev two_grants : List Grant
two_grants =
    record {
      user_email = "alice@old.example";
      user_id = none;
      aws_account_id = "111111111111";
      role_name = "Admin";
      hidden = false;
    }
    ∷ record {
      user_email = "bob@example";
      user_id = some "usr_b";
      aws_account_id = "111111111111";
      role_name = "Reader";
      hidden = false;
    }
    ∷ []

-- Bob has moved from the address under which his rows stand.
abbrev bob : User
bob = record {
  user_email = "bob@example";
  id = some "usr_b";
  current_email = some "bob@new.example";
  federation_username = none;
}

abbrev one_account : Scope
one_account = record {
  registry = record {
    users = bob ∷ [];
    emails = λ a.
        if a == "bob@new.example"
        then some (record { user_id = "usr_b"; is_verified = true; created_at = 1 })
        else none;
    users_fault = none;
    emails_fault = none;
  };
  by_email = λ a. none;
}

abbrev a_store : AccessStore
a_store = record { scope = one_account; accounts = []; grants = two_grants }

abbrev bob_account : Option AccountIdentity
bob_account =
    some (record { id = "usr_b"; email = "bob@new.example"; anchor_email = "bob@example" })

abbrev resolved : Scope
unfolding resolve_account
resolved = (resolve_account no_error "bob@new.example" one_account).1

bob-resolves : resolve_account no_error "bob@new.example" one_account ≡ (ok bob_account, resolved)
unfolding resolve_account load hydrate get get_by_id first address_of lower trim trim_start trim_end
bob-resolves = refl

grant_access-verify_example :
    ((grant_access no_error "usr_n" "bob@new.example" "222222222222" "Admin" a_store).0 ≡ ok tt)
    × (verify_user_has_access_to_role
          (owner_of "bob@new.example" bob_account)
          "222222222222"
          "Admin"
          (grant_access no_error "usr_n" "bob@new.example" "222222222222" "Admin" a_store).1.grants
        ≡ ok tt)
    × (any
          (λ a. a == "222222222222")
          (grant_access no_error "usr_n" "bob@new.example" "222222222222" "Admin"
            a_store).1.accounts
        ≡ true)
unfolding is_aws_account_id resolve_account load hydrate get get_by_id first address_of lower trim
    trim_start trim_end
grant_access-verify_example =
    grant_access-verify no_error "bob@new.example" "222222222222" "Admin" bob_account resolved
      a_store "usr_n" refl refl bob-resolves refl
      (λ e. absurd (differ "alice@old.example" "bob@example" refl e), (λ e. inr refl, tt))

revoke_access-verify_example :
    ((revoke_access no_error "bob@new.example" "111111111111" "Reader" a_store).0 ≡ ok tt)
    × (verify_user_has_access_to_role
          (owner_of "bob@new.example" bob_account)
          "111111111111"
          "Reader"
          (revoke_access no_error "bob@new.example" "111111111111" "Reader" a_store).1.grants
        ≡ err (forbidden (not_authorized "111111111111" "Reader")))
    × ((p : Owner) (account' role' : String)
        → (account' ≢ "111111111111") ⊎ (role' ≢ "Reader")
        → verify_user_has_access_to_role p account' role'
            (revoke_access no_error "bob@new.example" "111111111111" "Reader" a_store).1.grants
          ≡ verify_user_has_access_to_role p account' role' a_store.grants)
    × ((revoke_access no_error "bob@new.example" "111111111111" "Reader" a_store).1.accounts ≡ [])
unfolding is_aws_account_id
revoke_access-verify_example =
    revoke_access-verify no_error "bob@new.example" "111111111111" "Reader" bob_account resolved
      a_store refl refl bob-resolves

-- A grant to the address that Bob has given up is Bob's.
given_up :
    verify_user_has_access_to_role
      (owner_of "bob@new.example" bob_account)
      "222222222222"
      "Admin"
      (grant_access no_error "usr_n" "bob@example" "222222222222" "Admin" a_store).1.grants
    ≡ ok tt
unfolding verify_user_has_access_to_role is_for owner_clause conflicts grant_user_access_to_role
    grant_access is_aws_account_id ensure_user_email_exists resolve_account load load_unregistered
    find_by_anchor get get_by_current_email get_by_anchor first address_of lower trim trim_start
    trim_end
given_up = refl
