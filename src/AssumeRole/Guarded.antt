-- ===== src/AssumeRole/Guarded.antt =====
-- No credentials without a grant.
use aws_access_bridge.Base.{String, ◌≡◌, refl, Bool-cases, inl, inr, true, false, is_set, any}
use aws_access_bridge.Base.Errors.{ServiceError, ok, err, bad_request, forbidden, Result-cases}
use aws_access_bridge.Arn.{get_account_id_from_arn, get_role_name_from_arn}
use aws_access_bridge.Access.{is_for, not_authorized, verify_user_has_access_to_role}
use aws_access_bridge.Credential.Model.{AccessKeys}
use aws_access_bridge.Credential.Store.{missing_fields}
use aws_access_bridge.AssumeRole.{Services, Directory, resolve_owner, assume_role_for_user}

module _ {S : Type 0} (sv : Services S) (d : Directory S) (user_email arn : String) (w : S) where
  -- Keys are returned only for an ARN that names an account and a role of which the owner behind the
  -- user's address holds a grant.
  pub assume_role_for_user-granted :
      (keys : AccessKeys)
      → (assume_role_for_user sv d user_email arn w).0 ≡ ok keys
      → (account : String) × (role : String) × (get_account_id_from_arn arn ≡ ok account)
        × (get_role_name_from_arn arn ≡ ok role)
        × (any (is_for (resolve_owner d.resolve_account user_email) account role) d.grants ≡ true)
  unfolding assume_role_for_user verify_user_has_access_to_role
  assume_role_for_user-granted keys e = elim (Bool-cases (is_set arn)) [
    | inr x ↦ cc (rw x at e)
    | inl x ↦ elim (Result-cases (get_account_id_from_arn arn)) [
      | inr (y, f) ↦ cc (rw (x, f) at e)
      | inl (account, f) ↦ elim (Result-cases (get_role_name_from_arn arn)) [
        | inr (y, g) ↦ cc (rw (x, f, g) at e)
        | inl (role, g) ↦
            elim (Bool-cases
              (any (is_for (resolve_owner d.resolve_account user_email) account role) d.grants)) [
                | inl h ↦ (account, role, f, g, h)
                | inr h ↦ cc (rw (x, f, g, h) at e)
              ]
      ]
    ]
  ]

  -- Where the owner behind the address holds no grant for what the ARN names, and also where the ARN is
  -- empty or names no account or no role, the request is refused with an error before any of the
  -- services is called: no call of STS is made, and the store is as it was.
  pub assume_role_for_user-refused :
      ((account role : String)
        → get_account_id_from_arn arn ≡ ok account
        → get_role_name_from_arn arn ≡ ok role
        → any (is_for (resolve_owner d.resolve_account user_email) account role) d.grants ≡ false)
      → (e : ServiceError) × (assume_role_for_user sv d user_email arn w ≡ (err e, w))
  unfolding assume_role_for_user verify_user_has_access_to_role
  assume_role_for_user-refused none_held = elim (Bool-cases (is_set arn)) [
    | inr x ↦ (bad_request missing_fields, rw x refl)
    | inl x ↦ elim (Result-cases (get_account_id_from_arn arn)) [
      | inr (y, f) ↦ (y, rw (x, f) refl)
      | inl (account, f) ↦ elim (Result-cases (get_role_name_from_arn arn)) [
        | inr (y, g) ↦ (y, rw (x, f, g) refl)
        | inl (role, g) ↦
            (forbidden (not_authorized account role), rw (x, f, g, none_held account role f g) refl)
      ]
    ]
  ]
