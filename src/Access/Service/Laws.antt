-- ===== src/Access/Service/Laws.antt =====
-- The service's grants and revocations against the test that guards a role.
use aws_access_bridge.Base.{
  String, ◌≡◌, ◌≢◌, ◌⊎◌, inl, inr, refl, ◌∙◌, Option, none, List, [], ◌∷◌, true, Bool, All, is_set,
  ◌==◌, eq_refl, any, any-append, or-right, Bool-cases,
}
use aws_access_bridge.Base.Errors.{ServiceError, ok, err, forbidden}
use aws_access_bridge.Owner.{Owner}
use aws_access_bridge.Arn.{is_aws_account_id}
use aws_access_bridge.Arn.Laws.{is_aws_account_id-digits}
use aws_access_bridge.Access.{not_authorized, verify_user_has_access_to_role}
use aws_access_bridge.Access.Laws.{IsAnchor, verify-grant, verify-revoke}
use aws_access_bridge.Identity.Users.{ensure_user_email_exists}
use aws_access_bridge.Identity.Resolver.{AccountIdentity, Scope, resolve_account}
use aws_access_bridge.Access.Service.{
  AccessStore, owner_of, ensure_account_exists, grant_access, revoke_access,
}

any-ensure_account_exists :
    (account : String) (accounts : List String)
    → any (λ a. a == account) (ensure_account_exists account accounts) ≡ true
unfolding ensure_account_exists
any-ensure_account_exists account accounts = elim (Bool-cases (any (λ a. a == account) accounts)) [
  | inl e ↦ rw (e, e) refl
  | inr e ↦ rw e (
      any-append (λ a. a == account) accounts (account ∷ [])
      ∙ or-right (any (λ a. a == account) accounts) _ (rw (eq_refl account) refl))
]

module _ (is_missing_schema : ServiceError → Bool) (user_email account role : String)
    (found : Option AccountIdentity) (scope : Scope) (s : AccessStore) where
  -- Where the role is named, the account's id is 12 digits, the address resolves and the table of
  -- users can be written, a grant returns, after it the owner of the address passes the test, if no
  -- row under the owner's anchor address has another account's id, and the account is connected.
  pub grant_access-verify :
      (new_id : String)
      → is_set role ≡ true
      → is_aws_account_id account ≡ true
      → resolve_account is_missing_schema user_email s.scope ≡ (ok found, scope)
      → scope.registry.users_fault ≡ none
      → All (IsAnchor (owner_of user_email found)) s.grants
      → ((grant_access is_missing_schema new_id user_email account role s).0 ≡ ok tt)
        × (verify_user_has_access_to_role
              (owner_of user_email found)
              account
              role
              (grant_access is_missing_schema new_id user_email account role s).1.grants
            ≡ ok tt)
        × (any
              (λ a. a == account)
              (grant_access is_missing_schema new_id user_email account role s).1.accounts
            ≡ true)
  unfolding grant_access ensure_user_email_exists
  grant_access-verify new_id r a e f h =
      let (_, i) = is_aws_account_id-digits account a in
      rw (i, r, a, e, f)
        (
          refl,
          verify-grant (owner_of user_email found) account role s.grants h,
          any-ensure_account_exists account s.accounts,
        )

  -- Under the same conditions a revocation returns, after it the owner of the address fails the
  -- test, and the test of any owner for any other role answers as before; it connects no account.
  pub revoke_access-verify :
      is_set role ≡ true
      → is_aws_account_id account ≡ true
      → resolve_account is_missing_schema user_email s.scope ≡ (ok found, scope)
      → ((revoke_access is_missing_schema user_email account role s).0 ≡ ok tt)
        × (verify_user_has_access_to_role
              (owner_of user_email found)
              account
              role
              (revoke_access is_missing_schema user_email account role s).1.grants
            ≡ err (forbidden (not_authorized account role)))
        × ((p : Owner) (account' role' : String)
            → (account' ≢ account) ⊎ (role' ≢ role)
            → verify_user_has_access_to_role p account' role'
                (revoke_access is_missing_schema user_email account role s).1.grants
              ≡ verify_user_has_access_to_role p account' role' s.grants)
        × ((revoke_access is_missing_schema user_email account role s).1.accounts ≡ s.accounts)
  unfolding revoke_access
  revoke_access-verify r a e =
      let (_, i) = is_aws_account_id-digits account a in
      let (fails, others) = verify-revoke (owner_of user_email found) account role s.grants in
      rw (i, r, a, e) (refl, fails, others, refl)
