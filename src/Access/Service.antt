-- ===== src/Access/Service.antt =====
-- packages/backend-services/src/access/AccessService.ts: the administrator's grants and revocations.
-- `new_id` is what `newId` draws for an account that is not there yet.
pub mod Laws
mod Tests
use aws_access_bridge.Base.{
  String, Option, none, some, List, [], ◌∷◌, ◌++◌, Bool, not, ◌||◌, ◌==◌, any, is_set,
  if◌then◌else◌,
}
use aws_access_bridge.Base.Errors.{ServiceError, Result, ok, err, bad_request}
use aws_access_bridge.Base.Exec.{Exec, throw_if, modify, ◌>>=◌, ◌>>◌}
use aws_access_bridge.Owner.{Owner}
use aws_access_bridge.Arn.{is_aws_account_id}
use aws_access_bridge.Access.{Grant, grant_user_access_to_role, revoke_user_access_to_role}
use aws_access_bridge.Identity.Rows.{Registry}
use aws_access_bridge.Identity.Users.{ensure_user_email_exists}
use aws_access_bridge.Identity.Resolver.{AccountIdentity, Scope, resolve_account}

-- The tables, `aws_accounts` by its keys, with the service's resolutions of addresses.
pub record AccessStore : Type 0 where
  pub scope : Scope
  pub accounts : List String
  pub grants : List Grant

abbrev account_id_message : String
account_id_message = "AWS Account ID must be exactly 12 digits."

-- `idOf` reads an empty id as none.
abbrev pub owner_of : String → Option AccountIdentity → Owner
owner_of user_email none = record { user_id = none; anchor_email = user_email }
owner_of user_email (some a) = record {
  user_id = if is_set a.id then some a.id else none;
  anchor_email = a.anchor_email;
}

abbrev owner_result : String → Result (Option AccountIdentity) → Result Owner
owner_result user_email (ok account) = ok (owner_of user_email account)
owner_result user_email (err e) = err e

unfoldable pub ensure_account_exists : String → List String → List String
ensure_account_exists account accounts =
    if any (λ a. a == account) accounts then accounts else accounts ++ account ∷ []

abbrev pub in_registry : {A : Type 0} → Exec Registry A → Exec AccessStore A
in_registry m s =
    let (r, registry) = m s.scope.registry in
    (r, record s { scope = record s.scope { registry = registry } })

abbrev guarded : {A : Type 0} → String → String → Exec AccessStore A → Exec AccessStore A
guarded account role m s =
    (throw_if (not (is_set account) || not (is_set role)) (bad_request "Missing required fields.")
        >>= λ u.
            throw_if (not (is_aws_account_id account)) (bad_request account_id_message) >>= λ v. m)
      s

module _ (is_missing_schema : ServiceError → Bool) where
  abbrev resolve_owner_in : String → Exec AccessStore Owner
  resolve_owner_in user_email s =
      let (r, scope) = resolve_account is_missing_schema user_email s.scope in
      (owner_result user_email r, record s { scope = scope })

  abbrev grant_to : String → String → String → Owner → Exec AccessStore (Unit {0})
  grant_to new_id account role owner =
      in_registry (ensure_user_email_exists is_missing_schema new_id owner.anchor_email)
      >> modify (λ s. record s { accounts = ensure_account_exists account s.accounts })
      >> modify (λ s. record s { grants = grant_user_access_to_role owner account role s.grants })

  abbrev revoke_from : String → String → Owner → Exec AccessStore (Unit {0})
  revoke_from account role owner =
      modify (λ s. record s { grants = revoke_user_access_to_role owner account role s.grants })

  unfoldable pub grant_access : String → String → String → String → Exec AccessStore (Unit {0})
  grant_access new_id user_email account role =
      guarded account role (resolve_owner_in user_email >>= grant_to new_id account role)

  unfoldable pub revoke_access : String → String → String → Exec AccessStore (Unit {0})
  revoke_access user_email account role =
      guarded account role (resolve_owner_in user_email >>= revoke_from account role)
