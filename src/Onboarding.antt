-- ===== src/Onboarding.antt =====
-- apps/web/src/lib/onboardingWizard.ts: the rules of the onboarding wizard. A set of role names is
-- the list of its elements, in the order in which they were added.
pub mod Credentials
pub mod Batches
mod Tests
use aws_access_bridge.Base.{
  ℕ, ◌+◌, ◌-◌, min, max, String, Option, none, some, List, [], ◌∷◌, ◌++◌, map, Bool, true, false,
  not, ◌==◌, any, keep_if, ltb, nat_eq, is_set, if◌then◌else◌,
}
use aws_access_bridge.Identity.Address.{trim}

abbrev pub WizardStep : Type 0
WizardStep = ℕ

abbrev pub account_step : WizardStep
account_step = 0

abbrev pub credentials_step : WizardStep
credentials_step = 1

abbrev pub chain_step : WizardStep
chain_step = 2

abbrev pub roles_step : WizardStep
roles_step = 3

abbrev pub users_step : WizardStep
users_step = 4

abbrev pub summary_step : WizardStep
summary_step = 5

unfoldable pub next_step : WizardStep → WizardStep
next_step step = min summary_step (step + 1)

-- A step is at least `account_step`, which is 0.
unfoldable pub previous_step : WizardStep → WizardStep
previous_step step = max account_step (step - 1)

pub record StepGateFlags : Type 0 where
  pub account_saved : Bool
  pub credential_stored : Bool
  pub selected_role_count : ℕ

unfoldable pub can_advance_from_step : WizardStep → StepGateFlags → Bool
can_advance_from_step step flags =
    if nat_eq step account_step
    then flags.account_saved
    else if nat_eq step credentials_step
    then flags.credential_stored
    else if nat_eq step roles_step
    then ltb 0 flags.selected_role_count
    else if nat_eq step chain_step
    then true
    else nat_eq step users_step

pub record ValidatedIdentity : Type 0 where
  pub arn : String
  pub account_id : String

pub record CredentialsState : Type 0 where
  pub principal_arn : String
  pub access_key_id : String
  pub secret_access_key : String
  pub session_token : String
  pub credential_validated : Bool
  pub credential_stored : Bool
  pub validation_result : Option ValidatedIdentity

pub data ValidatedCredentialField : Type 0 where
  access_key_field secret_key_field session_token_field : ValidatedCredentialField

abbrev pub empty_credentials : CredentialsState
empty_credentials = record {
  principal_arn = "";
  access_key_id = "";
  secret_access_key = "";
  session_token = "";
  credential_validated = false;
  credential_stored = false;
  validation_result = none;
}

abbrev set_field : CredentialsState → ValidatedCredentialField → String → CredentialsState
set_field state access_key_field value = record state { access_key_id = value }
set_field state secret_key_field value = record state { secret_access_key = value }
set_field state session_token_field value = record state { session_token = value }

unfoldable pub edit_credential_field :
    CredentialsState → ValidatedCredentialField → String → CredentialsState
edit_credential_field state field value = record (set_field state field value) {
  credential_validated = false;
  validation_result = none;
}

-- The entries of a chain test are kept as they come.
pub record ChainState (Entry : Type 0) : Type 0 where
  pub intermediate_role_arn : String
  pub chain_configured : Bool
  pub chain_test_result : Option (List Entry)
  pub role_for_discovery : String

unfoldable pub edit_intermediate_role_arn :
    {Entry : Type 0} → ChainState Entry → String → ChainState Entry
edit_intermediate_role_arn state value = record state {
  intermediate_role_arn = value;
  chain_configured = false;
  chain_test_result = none;
}

unfoldable pub resolve_assumed_by_arn : {Entry : Type 0} → ChainState Entry → String → String
resolve_assumed_by_arn chain principal_arn =
    if is_set chain.role_for_discovery then chain.role_for_discovery else principal_arn

pub record DiscoveredRole : Type 0 where
  pub role_name : String
  pub arn : String
  pub description : String

-- `selected.has(name)`, and a set with the name.
abbrev pub has : String → List String → Bool
has name = any (λ n. n == name)

abbrev pub with_name : String → List String → List String
with_name name selected = if has name selected then selected else selected ++ name ∷ []

unfoldable pub add_manual_role :
    List DiscoveredRole → List String → String → String → Option (List DiscoveredRole × List String)
add_manual_role discovered selected raw_name description =
    let role_name = trim raw_name in
    let exists = any (λ r. r.role_name == role_name) discovered in
    let added : DiscoveredRole = record {
      role_name = role_name;
      arn = "";
      description = description;
    } in
    if not (is_set role_name)
    then none
    else some
        (if exists then discovered else discovered ++ added ∷ [], with_name role_name selected)

unfoldable pub toggle_selection : List String → String → List String
toggle_selection selected name =
    if has name selected then keep_if (λ n. not (n == name)) selected else selected ++ name ∷ []

unfoldable pub valid_emails : List String → List String
valid_emails emails = keep_if is_set (map trim emails)
