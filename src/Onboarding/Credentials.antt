-- ===== src/Onboarding/Credentials.antt =====
-- apps/web/src/hooks/onboarding/useCredentialsStep.ts, with the conditions under which
-- components/onboarding/CredentialsStep.tsx lets its buttons be pressed. A call to the server starts
-- with a press and answers at any later time, so the two are separate events.
pub mod Checked
use aws_access_bridge.Base.{
  ℕ, zero, suc, String, Option, none, some, List, [], ◌∷◌, ◌++◌, Bool, true, false, not, ◌&&◌, ◌==◌,
  get_elem?, is_set, if◌then◌else◌,
}
use aws_access_bridge.Identity.Address.{trim}
use aws_access_bridge.Onboarding.{
  CredentialsState, ValidatedCredentialField, ValidatedIdentity, edit_credential_field,
  empty_credentials,
}

-- What `validateCredentials` and `storeCredentials` are called with.
pub record Keys : Type 0 where
  pub access_key_id : String
  pub secret_access_key : String
  pub session_token : String

abbrev pub keys_of : CredentialsState → Keys
keys_of c = record {
  access_key_id = c.access_key_id;
  secret_access_key = c.secret_access_key;
  session_token = c.session_token;
}

-- WIZARD_BUSY, of this step.
pub data Busy : Type 0 where
  validating storing : Busy

-- The state of the hook, the action that is busy, and the calls that have not answered, in the order
-- in which they started.
pub record CredentialsStep : Type 0 where
  pub credentials : CredentialsState
  pub busy_key : Option Busy
  pub validations : List Keys
  pub stores : List Keys

abbrev pub first_credentials : CredentialsStep
first_credentials = record {
  credentials = empty_credentials;
  busy_key = none;
  validations = [];
  stores = [];
}

abbrev is_validating : Option Busy → Bool
is_validating (some validating) = true
is_validating other = false

abbrev is_storing : Option Busy → Bool
is_storing (some storing) = true
is_storing other = false

-- `setBusyKey((current) => (current === key ? null : current))`
abbrev after_validation : Option Busy → Option Busy
after_validation busy = if is_validating busy then none else busy

abbrev after_store : Option Busy → Option Busy
after_store busy = if is_storing busy then none else busy

abbrev pub without : ℕ → List Keys → List Keys
without i [] = []
without zero (k ∷ ks) = ks
without (suc i) (k ∷ ks) = k ∷ without i ks

abbrev pub edit : ValidatedCredentialField → String → CredentialsStep → CredentialsStep
edit field value w = record w { credentials = edit_credential_field w.credentials field value }

abbrev pub set_principal_arn : String → CredentialsStep → CredentialsStep
set_principal_arn value w = record w {
  credentials = record w.credentials { principal_arn = value };
}

unfoldable pub handle_validate_credentials : CredentialsStep → CredentialsStep
handle_validate_credentials w =
    let c = w.credentials in
    if not (is_validating w.busy_key) && is_set c.access_key_id && is_set c.secret_access_key
    then record w { busy_key = some validating; validations = w.validations ++ keys_of c ∷ [] }
    else w

abbrev pub on_validation : Option ValidatedIdentity → CredentialsState → CredentialsState
on_validation none c = record c { validation_result = none; credential_validated = false }
on_validation (some r) c = record c { validation_result = some r; credential_validated = true }

-- The answer to the call at the index; nothing answers where there is no call.
abbrev pub settle_validation :
    (Keys → Option ValidatedIdentity) → ℕ → Option Keys → CredentialsStep → CredentialsStep
settle_validation answers i none w = w
settle_validation answers i (some keys) w = record w {
  credentials = on_validation (answers keys) w.credentials;
  busy_key = after_validation w.busy_key;
  validations = without i w.validations;
}

abbrev pub may_store : CredentialsStep → Bool
may_store w =
    let c = w.credentials in
    not (is_storing w.busy_key)
    && c.credential_validated
    && is_set c.principal_arn
    && is_set c.access_key_id
    && is_set c.secret_access_key

unfoldable pub handle_store_credentials : CredentialsStep → CredentialsStep
handle_store_credentials w =
    if may_store w && is_set (trim w.credentials.principal_arn)
    then record w { busy_key = some storing; stores = w.stores ++ keys_of w.credentials ∷ [] }
    else w

abbrev pub settle_store : Bool → ℕ → Option Keys → CredentialsStep → CredentialsStep
settle_store is_stored i none w = w
settle_store is_stored i (some keys) w = record w {
  credentials = record w.credentials {
    credential_stored = if is_stored then true else w.credentials.credential_stored;
  };
  busy_key = after_store w.busy_key;
  stores = without i w.stores;
}

pub data Event : Type 0 where
  edited : ValidatedCredentialField → String → Event
  renamed : String → Event
  validate_pressed : Event
  -- The index of the call, and the time at which the server looked at its keys.
  validation_answered : ℕ → ℕ → Event
  store_pressed : Event
  store_answered : ℕ → Bool → Event

-- What the server says of keys at a time.
module _ (validate_credentials : ℕ → Keys → Option ValidatedIdentity) where
  unfoldable pub on_event : Event → CredentialsStep → CredentialsStep
  on_event (edited field value) w = edit field value w
  on_event (renamed value) w = set_principal_arn value w
  on_event validate_pressed w = handle_validate_credentials w
  on_event (validation_answered i time) w =
      settle_validation (validate_credentials time) i (get_elem? w.validations i) w
  on_event store_pressed w = handle_store_credentials w
  on_event (store_answered i is_stored) w = settle_store is_stored i (get_elem? w.stores i) w

  unfoldable pub run_events : List Event → CredentialsStep → CredentialsStep
  run_events [] w = w
  run_events (e ∷ es) w = run_events es (on_event e w)
