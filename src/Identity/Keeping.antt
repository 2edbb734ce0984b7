-- ===== src/Identity/Keeping.antt =====
-- A verified address under the operations of other accounts.
use aws_access_bridge.Base.{
  ≢-differ, ℕ, String, ◌≡◌, ◌≢◌, ◌⊎◌, refl, ap, sym, ◌∙◌, Option, none, some, Bool, true, false,
  not, inl, inr, Bool-cases, text_or_empty, ◌==◌, eq_iff, is_set, differ,
}
use aws_access_bridge.Base.Errors.{ServiceError, Result, ok, err, bad_request}
use aws_access_bridge.Base.Exec.{
  Exec, pure, throw_if, modify, ◌>>◌, continue, Preserves, >>=-Preserves, >>-Preserves,
  throw_if-Preserves,
}
use aws_access_bridge.Credential.Vault.{update-other}
use aws_access_bridge.Identity.Address.{lower, trim, is_email}
use aws_access_bridge.Identity.Rows.{UserEmail, User, Registry}
use aws_access_bridge.Identity.Emails.{
  get, register, upserted, upsert, put, register_over, revoke_all_verified, claimed_by_other,
}
use aws_access_bridge.Identity.Users.{
  get_by_id, set_current_email, insert_over, ensure_user_email_exists,
}
use aws_access_bridge.Identity.Primary.{is_claimed_by_other-state}
use aws_access_bridge.Identity.Resolver.{AccountIdentity, address_of}
use aws_access_bridge.Identity.Change.{get_by_id-id}
use aws_access_bridge.Identity.Addresses.{
  set_primary_email, link_verified_email, in_use, identity, move_to, change_user, change_address,
  is_claimed_by_other,
}

module _ (holder a : String) (row : UserEmail) (held : row.user_id ≡ holder)
    (verified : row.is_verified ≡ true) where
  abbrev Holds : Registry → Type 0
  Holds s = s.emails a ≡ some row

  abbrev Keeps : {A : Type 0} → Exec Registry A → Type 0
  Keeps m = Preserves Holds m

  put-Keeps :
      (email : String) (new : Option UserEmail) → (new ≡ none) ⊎ (a ≢ email) → Keeps (put email new)
  put-Keeps email none w s h = h
  put-Keeps email (some new) (inl w) s h = cc
  put-Keeps email (some new) (inr w) s h = rw (update-other s.emails email (some new) a w) h

  taken-upserted :
      (email : String) (new : UserEmail) (s : Registry)
      → a ≡ email
      → Holds s
      → upserted new (s.emails email) ≡ none
  taken-upserted email new s same h = rw (sym (ap s.emails same) ∙ h, verified) refl

  upsert-Keeps : (email : String) (new : UserEmail) → Keeps (upsert email new)
  upsert-Keeps email new s h = elim (Bool-cases (a == email)) [
    | inl e ↦
        let same = (eq_iff a email).0 e in
        put-Keeps email (upserted new (s.emails email)) (inl (taken-upserted email new s same h)) s
          h
    | inr e ↦ put-Keeps email (upserted new (s.emails email)) (inr (differ a email e)) s h
  ]

  over-Keeps :
      (r : Result (Option UserEmail)) (email : String) (new : UserEmail)
      → Keeps (register_over r email new)
  over-Keeps (err e) email new s h = h
  over-Keeps (ok existing) email new s h = elim (Bool-cases (claimed_by_other existing)) [
    | inl e ↦ rw e h
    | inr e ↦ rw e (upsert-Keeps email new s h)
  ]

  register-Keeps :
      (email user_id : String) (b : Bool) (now : ℕ) → Keeps (register email user_id b now)
  unfolding register
  register-Keeps email user_id b now s h = over-Keeps (get (lower email) s) (lower email) _ s h

  module _ (user_id : String) (other : user_id ≢ holder) where
    revoke-Keeps : (email : String) → Keeps (modify (revoke_all_verified user_id email))
    unfolding revoke_all_verified
    revoke-Keeps email s h =
        let not_theirs : (row.user_id == user_id) ≡ false =
          ≢-differ row.user_id user_id (λ e. other (sym e ∙ held)) in
        rw (h, not_theirs) refl

    set_current-Keeps : (email : String) → Keeps (modify (set_current_email user_id email))
    unfolding set_current_email
    set_current-Keeps email s h = h

    pub link_verified_email-Keeps :
        (email : String) (now : ℕ) → Keeps (link_verified_email user_id email now)
    unfolding link_verified_email
    link_verified_email-Keeps email now =
        >>=-Preserves Holds
          (throw_if (not (is_email (trim email))) (bad_request "Invalid email address.")) _
          (throw_if-Preserves Holds (not (is_email (trim email))) _)
          (λ _.
            >>=-Preserves Holds (register (trim email) user_id true now) _
              (register-Keeps (trim email) user_id true now)
              (λ claimed. throw_if-Preserves Holds (not claimed) in_use))

  insert-Keeps :
      (m : ServiceError → Bool) (new_id email : String) (fault : Option ServiceError)
      → Keeps (insert_over m new_id email fault)
  insert-Keeps m new_id email none s h = h
  insert-Keeps m new_id email (some e) s h = elim (Bool-cases (m e)) [
    | inl f ↦ rw f h
    | inr f ↦ rw f h
  ]

  pub ensure-Keeps :
      (m : ServiceError → Bool) (new_id email : String)
      → Keeps (ensure_user_email_exists m new_id email)
  unfolding ensure_user_email_exists
  ensure-Keeps m new_id email s h = insert-Keeps m new_id email s.users_fault s h

  move_to-Keeps :
      (u : User) (email : String) (now : ℕ)
      → text_or_empty u.id ≢ holder
      → Keeps (move_to u email now)
  unfolding move_to
  move_to-Keeps u email now other =
      let id = text_or_empty u.id in
      let last : Exec Registry AccountIdentity = pure (identity u email) in
      >>=-Preserves Holds (register email id true now) _ (register-Keeps email id true now)
        (λ claimed.
          >>-Preserves Holds (throw_if (not claimed) in_use) _
            (throw_if-Preserves Holds (not claimed) in_use)
            (>>-Preserves Holds (modify (revoke_all_verified id email))
              (modify (set_current_email id email) >> last) (revoke-Keeps id other email)
              (>>-Preserves Holds (modify (set_current_email id email)) last
                (set_current-Keeps id other email) (λ s h. h))))

  module _ (user_id : String) (other : user_id ≢ holder) where
    module _ (m : ServiceError → Bool) (email : String) (now : ℕ) where
      change_address-Keeps :
          (b : Bool) (u : User)
          → text_or_empty u.id ≡ user_id
          → Keeps (change_address m b u email now)
      change_address-Keeps true u same = λ s h. h
      change_address-Keeps false u same =
          >>=-Preserves Holds (is_claimed_by_other m email (text_or_empty u.id)) _
            (λ s h. rw (is_claimed_by_other-state m email (text_or_empty u.id) s) h)
            (λ claimed.
              >>=-Preserves Holds (throw_if claimed in_use) _
                (throw_if-Preserves Holds claimed in_use)
                (λ _. move_to-Keeps u email now (λ e. other (sym same ∙ e))))

      found-Keeps :
          (found : Result (Option User)) (s : Registry)
          → get_by_id user_id s ≡ found
          → Holds s
          → Holds (continue found (λ u. change_user m u email now) s).1
      found-Keeps (err e) s f h = h
      found-Keeps (ok none) s f h = h
      found-Keeps (ok (some u)) s f h =
          >>=-Preserves Holds
            (throw_if (not (is_set (text_or_empty u.id))) (bad_request "User not found.")) _
            (throw_if-Preserves Holds (not (is_set (text_or_empty u.id))) _)
            (λ _.
              change_address-Keeps (lower (address_of u) == lower email) u
                (get_by_id-id user_id u s f))
            s h

    pub set_primary_email-Keeps :
        (m : ServiceError → Bool) (new : String) (now : ℕ)
        → Keeps (set_primary_email m user_id new now)
    unfolding set_primary_email
    set_primary_email-Keeps m new now =
        >>=-Preserves Holds
          (throw_if (not (is_email (trim new))) (bad_request "Invalid email address.")) _
          (throw_if-Preserves Holds (not (is_email (trim new))) _)
          (λ _ s h. found-Keeps m (trim new) now (get_by_id user_id s) s refl h)
