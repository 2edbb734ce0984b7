-- ===== src/Credential/Tests/Data.antt =====
-- A target that a middle role may assume, a base user under both, and a cache with the middle.
use aws_access_bridge.Base.{String, Option, none, some, [], ◌∷◌, true, ◌==◌, if◌then◌else◌}
use aws_access_bridge.Base.Errors.{Result, ok}
use aws_access_bridge.Base.Exec.{Exec}
use aws_access_bridge.Crypto.Tests.{labelled}
use aws_access_bridge.Credential.Model.{Credential, CredentialChain, CredentialCache}
use aws_access_bridge.Credential.Vault.{Vault, Settings}

abbrev pub target_arn : String
target_arn = "arn:aws:iam::111111111111:role/Target"

abbrev pub middle_arn : String
middle_arn = "arn:aws:iam::222222222222:role/Middle"

abbrev pub base_arn : String
base_arn = "arn:aws:iam::333333333333:user/base"

abbrev pub row_at : String → Option String → Option String → Credential
row_at arn next key = record {
  principal_arn = arn;
  assumed_by = next;
  access_key_id = key;
  secret_access_key = key;
  session_token = none;
}

abbrev next_of : String → Option String
next_of arn =
    if arn == target_arn then some middle_arn else if arn == middle_arn then some base_arn else none

abbrev key_of : String → Option String
key_of arn = if arn == base_arn then some "key" else none

abbrev pub read_three : String → Result Credential
read_three arn = ok (row_at arn (next_of arn) (key_of arn))

-- A cycle: each of two roles is assumed by the other.
abbrev pub other_role : String → String
other_role arn = if arn == target_arn then middle_arn else target_arn

abbrev pub read_cycle : String → Result Credential
read_cycle arn = ok (row_at arn (some (other_role arn)) none)

abbrev pub chain_three : CredentialChain
chain_three = record {
  principal_arns = target_arn ∷ middle_arn ∷ base_arn ∷ [];
  access_key_id = "key";
  secret_access_key = "key";
  session_token = none;
}

abbrev pub middle_entry : CredentialCache
middle_entry = record {
  principal_arn = middle_arn;
  access_key_id = "warm";
  secret_access_key = "warm";
  session_token = some "token";
  expires_at = 2000;
}

abbrev pub cached_middle : String → Exec Unit (Option CredentialCache)
cached_middle arn kv = (ok (if arn == middle_arn then some middle_entry else none), kv)

abbrev pub cached_nothing : String → Exec Unit (Option CredentialCache)
cached_nothing arn kv = (ok none, kv)

abbrev pub empty_vault : Vault
empty_vault = record { credentials = λ arn. none; cache = λ arn. none; cache_config = λ arn. none }

abbrev pub settings : Settings
settings = record {
  cipher = labelled;
  credential_keys = "k1" ∷ [];
  cache_keys = "k2" ∷ [];
  has_kv = true;
  trust_chain_limit = 3;
}
