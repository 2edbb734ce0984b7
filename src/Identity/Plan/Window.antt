-- ===== src/Identity/Plan/Window.antt =====
-- An account can sign in at every moment of its change of address.
use aws_access_bridge.Base.{
  ℕ, String, Option, none, some, true, false, not, ◌&&◌, ◌==◌, ◌≡◌, refl, sym, ap, ◌∙◌, All,
  Bool-cases, inl, inr, eq_iff, eq_refl, differ, subst, ◌↔◌, and-false, if-true, if-false,
}
use aws_access_bridge.Credential.Vault.{update-same}
use aws_access_bridge.Identity.Rows.{UserEmail, Registry}
use aws_access_bridge.Identity.Plan.{
  claim, move, revoke, change_email_statements, claimed, revoked_unless, execute, states,
  execute_all,
}

-- The address authenticates as the account.
abbrev pub IsLogin : String → String → Registry → Type 0
IsLogin account_id email s =
    (row : UserEmail) × (s.emails email ≡ some row)
    × (row.user_id ≡ account_id)
    × (row.is_verified ≡ true)

module _ (target account_id : String) (now : ℕ) where
  claimed-own :
      (old : Option UserEmail)
      → ((claimed account_id now old).user_id ≡ account_id)
        × ((claimed account_id now old).is_verified ≡ true)
  claimed-own none = (refl, refl)
  claimed-own (some old) = (refl, refl)

  claim-IsLogin :
      (s : Registry) → IsLogin account_id target (execute (claim target account_id now) s)
  unfolding execute
  claim-IsLogin s =
      let own = claimed-own (s.emails target) in
      (
        claimed account_id now (s.emails target),
        update-same s.emails target (some (claimed account_id now (s.emails target))),
        own.0,
        own.1,
      )

  move-IsLogin :
      (s : Registry)
      → IsLogin account_id target s
      → IsLogin account_id target (execute (move target account_id) s)
  unfolding execute
  move-IsLogin s h = h

  revoked_unless-target : (o : Option UserEmail) → revoked_unless true account_id o ≡ o
  revoked_unless-target none = refl
  revoked_unless-target (some row) = if-false _ _ _ (and-false (row.user_id == account_id))

  revoked_unless-other :
      (o : Option UserEmail) (row : UserEmail)
      → revoked_unless false account_id o ≡ some row
      → row.user_id ≡ account_id
      → row.is_verified ≡ true
      → ⊥
  revoked_unless-other none row e own verified = cc
  revoked_unless-other (some r) row e own verified = elim (Bool-cases (r.user_id == account_id)) [
    | inl k ↦
        let taken =
          if-true (r.user_id == account_id && not false) (some (record r { is_verified = false }))
            (some r) (rw k refl) in
        let same : record r { is_verified = false } ≡ row = cc (sym taken ∙ e) in
        cc (ap (λ x. x.is_verified) same, verified)
    | inr k ↦
        let kept =
          if-false (r.user_id == account_id && not false) (some (record r { is_verified = false }))
            (some r) (rw k refl) in
        let same : r ≡ row = cc (sym kept ∙ e) in
        differ r.user_id account_id k (ap (λ x. x.user_id) same ∙ own)
  ]

  revoke-IsLogin :
      (s : Registry)
      → IsLogin account_id target s
      → IsLogin account_id target (execute (revoke target account_id) s)
  unfolding execute
  revoke-IsLogin s (row, e, own, verified) =
      (row, rw (eq_refl target) (revoked_unless-target (s.emails target) ∙ e), own, verified)

  revoke-only :
      (s : Registry) (email : String)
      → IsLogin account_id email (execute (revoke target account_id) s)
      → email ≡ target
  unfolding execute
  revoke-only s email (row, e, own, verified) = elim (Bool-cases (email == target)) [
    | inl k ↦ (eq_iff email target).0 k
    | inr k ↦ absurd (
        revoked_unless-other (s.emails email) row
          (ap (λ b. revoked_unless b account_id (s.emails email)) (sym k) ∙ e) own verified)
  ]

  final-only :
      (s : Registry) (email : String)
      → IsLogin account_id email (execute_all (change_email_statements target account_id now) s)
        ↔ (email ≡ target)
  unfolding change_email_statements execute_all
  final-only s email =
      let moved = execute (move target account_id) (execute (claim target account_id now) s) in
      let own = move-IsLogin (execute (claim target account_id now) s) (claim-IsLogin s) in
      (
        revoke-only moved email,
        (λ e.
            subst (λ x. IsLogin account_id x (execute (revoke target account_id) moved)) (sym e)
              (revoke-IsLogin moved own)),
      )

  -- After each statement of the plan the target authenticates as the account, and after the last one
  -- it is the only address that does.
  pub change_email_statements-IsLogin :
      (s : Registry) (email : String)
      → All (IsLogin account_id target) (states (change_email_statements target account_id now) s)
        × (IsLogin account_id email (execute_all (change_email_statements target account_id now) s)
            ↔ (email ≡ target))
  unfolding states change_email_statements
  change_email_statements-IsLogin s email =
      let claimed_one = claim-IsLogin s in
      let moved = move-IsLogin (execute (claim target account_id now) s) claimed_one in
      let last = execute (move target account_id) (execute (claim target account_id now) s) in
      ((claimed_one, (moved, (revoke-IsLogin last moved, tt))), final-only s email)
