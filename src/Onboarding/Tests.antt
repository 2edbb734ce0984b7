-- ===== src/Onboarding/Tests.antt =====
-- Keys that are checked and stored, a key that is edited during a check, and the pairs of a grant.
use aws_access_bridge.Base.{
  ℕ, String, Option, none, some, List, [], ◌∷◌, Bool, true, ◌==◌, ◌≡◌, refl, length, if◌then◌else◌,
}
use aws_access_bridge.Identity.Address.{trim, trim_start, trim_end}
use aws_access_bridge.Onboarding.{
  ValidatedIdentity, access_key_field, secret_key_field, edit_credential_field,
}
use aws_access_bridge.Onboarding.Credentials.{
  Keys, CredentialsStep, first_credentials, Event, edited, renamed, validate_pressed,
  validation_answered, store_pressed, on_event, run_events, handle_validate_credentials,
  handle_store_credentials,
}
use aws_access_bridge.Onboarding.Credentials.Checked.{
  EditsWhenIdle, IsChecked, run_events-IsChecked,
}
use aws_access_bridge.Onboarding.Batches.{grant_pairs}

-- A server that knows one access key.
abbrev knows_one : ℕ → Keys → Option ValidatedIdentity
knows_one time keys =
    if keys.access_key_id == "AKIA1"
    then some (record { arn = "arn:aws:iam::123456789012:user/a"; account_id = "123456789012" })
    else none

abbrev checked_and_stored : List Event
checked_and_stored =
    edited access_key_field "AKIA1"
    ∷ edited secret_key_field "s"
    ∷ renamed "arn:aws:iam::123456789012:user/a"
    ∷ validate_pressed
    ∷ validation_answered 0 7
    ∷ store_pressed
    ∷ []

is_quiet : EditsWhenIdle knows_one checked_and_stored first_credentials
unfolding on_event edit_credential_field handle_validate_credentials handle_store_credentials trim
    trim_start trim_end
is_quiet = (refl, (refl, tt))

run_events-IsChecked_example :
    IsChecked knows_one (run_events knows_one checked_and_stored first_credentials)
run_events-IsChecked_example = run_events-IsChecked knows_one checked_and_stored is_quiet

-- One call to store the keys has been made.
one_call : length (run_events knows_one checked_and_stored first_credentials).stores ≡ 1
unfolding on_event run_events edit_credential_field handle_validate_credentials
    handle_store_credentials trim trim_start trim_end
one_call = refl

-- A key that is edited during the check of another.
abbrev edited_meanwhile : CredentialsStep
edited_meanwhile =
    run_events knows_one
      (edited access_key_field "AKIA1"
        ∷ edited secret_key_field "s"
        ∷ validate_pressed
        ∷ edited access_key_field "AKIA2"
        ∷ validation_answered 0 7
        ∷ [])
      first_credentials

shown_as_validated :
    ◌≡◌ {A = Bool × String}
      (
        edited_meanwhile.credentials.credential_validated,
        edited_meanwhile.credentials.access_key_id,
      )
      (true, "AKIA2")
unfolding on_event run_events edit_credential_field handle_validate_credentials
shown_as_validated = refl

abbrev some_emails : List String
some_emails = " ann@x.org" ∷ "" ∷ "bob@x.org" ∷ []

abbrev two_roles : List String
two_roles = "Admin" ∷ "Reader" ∷ []

four_calls : length (grant_pairs some_emails two_roles) ≡ 4
unfolding grant_pairs trim trim_start trim_end
four_calls = refl
