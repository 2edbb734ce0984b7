-- ===== src/Onboarding/Credentials/Checked.antt =====
-- What is shown as validated, and what is stored, where no key is edited while a check is running.
use aws_access_bridge.Base.{
  ℕ, zero, suc, Option, none, some, List, [], ◌∷◌, Bool, true, false, ◌≡◌, refl, get_elem?, is_set,
  All, All-snoc, and-true, if◌then◌else◌, subst, String,
}
use aws_access_bridge.Identity.Address.{trim}
use aws_access_bridge.Onboarding.{
  ValidatedIdentity, ValidatedCredentialField, edit_credential_field,
}
use aws_access_bridge.Onboarding.Credentials.{
  Keys, keys_of, CredentialsStep, first_credentials, Event, edited, renamed, validate_pressed,
  validation_answered, store_pressed, store_answered, without, on_event, run_events, may_store,
  handle_validate_credentials, handle_store_credentials, on_validation, settle_validation,
  settle_store, after_validation,
}

All-get_elem? :
    {A : Type 0} (P : A → Type 0) (xs : List A) (i : ℕ) (x : A)
    → All P xs
    → get_elem? xs i ≡ some x
    → P x
All-get_elem? P [] i x h e = cc
All-get_elem? P (y ∷ ys) zero x h e = let same : y ≡ x = cc e in subst P same h.0
All-get_elem? P (y ∷ ys) (suc i) x h e = All-get_elem? P ys i x h.1 e

All-without : (P : Keys → Type 0) (ks : List Keys) (i : ℕ) → All P ks → All P (without i ks)
All-without P [] i h = tt
All-without P (k ∷ ks) zero h = h.1
All-without P (k ∷ ks) (suc i) h = (h.0, All-without P ks i h.1)

-- The state after an answer.
abbrev settled : ℕ → Option ValidatedIdentity → CredentialsStep → CredentialsStep
settled i o w = record w {
  credentials = on_validation o w.credentials;
  busy_key = after_validation w.busy_key;
  validations = without i w.validations;
}

may_store-validated :
    (w : CredentialsStep) → may_store w ≡ true → w.credentials.credential_validated ≡ true
may_store-validated w h =
    let (others, secret) = and-true _ _ h in
    let (others, key) = and-true _ _ others in
    let (others, principal) = and-true _ _ others in (and-true _ _ others).1

if-keeps :
    (P : CredentialsStep → Type 0) (b : Bool) (x y : CredentialsStep)
    → (b ≡ true → P x)
    → P y
    → P (if b then x else y)
if-keeps P true x y f p = f refl
if-keeps P false x y f p = p

module _ (validate_credentials : ℕ → Keys → Option ValidatedIdentity) where
  -- The server has answered for the keys, at some time, with the identity.
  abbrev pub HasAnswered : Keys → ValidatedIdentity → Type 0
  HasAnswered keys r = (time : ℕ) × (validate_credentials time keys ≡ some r)

  abbrev pub IsAccepted : Keys → Type 0
  IsAccepted keys = (r : ValidatedIdentity) × HasAnswered keys r

  -- The form shows an identity exactly where it has the mark of validation, and the identity is the
  -- answer for its keys.
  abbrev pub Shows : Bool → Option ValidatedIdentity → Keys → Type 0
  Shows false none keys = Unit
  Shows false (some r) keys = ⊥
  Shows true none keys = ⊥
  Shows true (some r) keys = HasAnswered keys r

  marked-IsAccepted :
      (result : Option ValidatedIdentity) (keys : Keys) → Shows true result keys → IsAccepted keys
  marked-IsAccepted none keys h = absurd h
  marked-IsAccepted (some r) keys h = (r, h)

  -- What is shown as validated is an answer for the keys in the form, and the keys on their way to be
  -- stored were accepted.
  abbrev pub IsChecked : CredentialsStep → Type 0
  IsChecked w =
      Shows w.credentials.credential_validated w.credentials.validation_result
        (keys_of w.credentials)
      × All IsAccepted w.stores

  abbrev AreCurrent : CredentialsStep → Type 0
  AreCurrent w = All (λ k. k ≡ keys_of w.credentials) w.validations

  -- No key is edited while a check is running.
  abbrev pub EditsWhenIdle : List Event → CredentialsStep → Type 0
  EditsWhenIdle [] w = Unit
  EditsWhenIdle (edited field value ∷ es) w =
      (w.validations ≡ []) × EditsWhenIdle es (on_event validate_credentials (edited field value) w)
  EditsWhenIdle (e ∷ es) w = EditsWhenIdle es (on_event validate_credentials e w)

  edit-IsChecked :
      (field : ValidatedCredentialField) (value : String) (w : CredentialsStep)
      → IsChecked w
      → w.validations ≡ []
      → IsChecked (on_event validate_credentials (edited field value) w)
        × AreCurrent (on_event validate_credentials (edited field value) w)
  unfolding on_event edit_credential_field
  edit-IsChecked field value w h e = ((tt, h.1), rw e tt)

  validate-IsChecked :
      (w : CredentialsStep)
      → IsChecked w
      → AreCurrent w
      → IsChecked (handle_validate_credentials w) × AreCurrent (handle_validate_credentials w)
  unfolding handle_validate_credentials
  validate-IsChecked w h c =
      if-keeps (λ v. IsChecked v × AreCurrent v) _ _ w
        (λ b. (
          h,
          All-snoc (λ k. k ≡ keys_of w.credentials) w.validations (keys_of w.credentials) c refl,
        ))
        (h, c)

  answered-IsChecked :
      (i time : ℕ) (keys : Keys) (o : Option ValidatedIdentity) (w : CredentialsStep)
      → validate_credentials time keys ≡ o
      → keys ≡ keys_of w.credentials
      → IsChecked w
      → AreCurrent w
      → IsChecked (settled i o w) × AreCurrent (settled i o w)
  answered-IsChecked i time keys none w q same h c =
      ((tt, h.1), All-without (λ k. k ≡ keys_of w.credentials) w.validations i c)
  answered-IsChecked i time keys (some r) w q same h c = (
    ((time, subst (λ k. validate_credentials time k ≡ some r) same q), h.1),
    All-without (λ k. k ≡ keys_of w.credentials) w.validations i c,
  )

  answer-IsChecked :
      (i time : ℕ) (o : Option Keys) (w : CredentialsStep)
      → get_elem? w.validations i ≡ o
      → IsChecked w
      → AreCurrent w
      → IsChecked (settle_validation (validate_credentials time) i o w)
        × AreCurrent (settle_validation (validate_credentials time) i o w)
  answer-IsChecked i time none w e h c = (h, c)
  answer-IsChecked i time (some keys) w e h c =
      let same : keys ≡ keys_of w.credentials =
        All-get_elem? (λ k. k ≡ keys_of w.credentials) w.validations i keys c e in
      answered-IsChecked i time keys (validate_credentials time keys) w refl same h c

  store-IsChecked :
      (w : CredentialsStep)
      → IsChecked w
      → AreCurrent w
      → IsChecked (handle_store_credentials w) × AreCurrent (handle_store_credentials w)
  unfolding handle_store_credentials
  store-IsChecked w h c =
      if-keeps (λ v. IsChecked v × AreCurrent v) _ _ w
        (λ b.
          let (pressed, named) =
            and-true (may_store w) (is_set (trim w.credentials.principal_arn)) b in
          let accepted = marked-IsAccepted w.credentials.validation_result (keys_of w.credentials) (
            subst (λ m. Shows m w.credentials.validation_result (keys_of w.credentials))
              (may_store-validated w pressed) h.0) in
          ((h.0, All-snoc IsAccepted w.stores (keys_of w.credentials) h.1 accepted), c))
        (h, c)

  stored-IsChecked :
      (is_stored : Bool) (i : ℕ) (o : Option Keys) (w : CredentialsStep)
      → IsChecked w
      → AreCurrent w
      → IsChecked (settle_store is_stored i o w) × AreCurrent (settle_store is_stored i o w)
  stored-IsChecked is_stored i none w h c = (h, c)
  stored-IsChecked is_stored i (some keys) w h c = ((h.0, All-without IsAccepted w.stores i h.1), c)

  on_event-IsChecked :
      (es : List Event) (w : CredentialsStep)
      → IsChecked w
      → AreCurrent w
      → EditsWhenIdle es w
      → IsChecked (run_events validate_credentials es w)
  unfolding run_events on_event
  on_event-IsChecked [] w h c i = h
  on_event-IsChecked (edited field value ∷ es) w h c i =
      let next = edit-IsChecked field value w h i.0 in on_event-IsChecked es _ next.0 next.1 i.1
  on_event-IsChecked (renamed value ∷ es) w h c i = on_event-IsChecked es _ h c i
  on_event-IsChecked (validate_pressed ∷ es) w h c i =
      let next = validate-IsChecked w h c in on_event-IsChecked es _ next.0 next.1 i
  on_event-IsChecked (validation_answered n time ∷ es) w h c i =
      let next = answer-IsChecked n time (get_elem? w.validations n) w refl h c in
      on_event-IsChecked es _ next.0 next.1 i
  on_event-IsChecked (store_pressed ∷ es) w h c i =
      let next = store-IsChecked w h c in on_event-IsChecked es _ next.0 next.1 i
  on_event-IsChecked (store_answered n is_stored ∷ es) w h c i =
      let next = stored-IsChecked is_stored n (get_elem? w.stores n) w h c in
      on_event-IsChecked es _ next.0 next.1 i

  -- After any events in which no key is edited while a check is running, an identity is shown exactly
  -- where the keys in the form are marked as validated, it is the server's answer for exactly these
  -- keys, and every set of keys on its way to be stored is one that the server has accepted.
  pub run_events-IsChecked :
      (es : List Event)
      → EditsWhenIdle es first_credentials
      → IsChecked (run_events validate_credentials es first_credentials)
  run_events-IsChecked es i = on_event-IsChecked es first_credentials (tt, tt) tt i
