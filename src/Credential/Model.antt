-- ===== src/Credential/Model.antt =====
-- The records of packages/shared/src/model that the credential code passes around.
use aws_access_bridge.Base.{ℕ, String, Option, List}

-- A row of `credentials`, decrypted.
pub record Credential : Type 0 where
  pub principal_arn : String
  pub assumed_by : Option String
  pub access_key_id : Option String
  pub secret_access_key : Option String
  pub session_token : Option String

-- From the target (first) to the base principal (last), with the keys to start from.
pub record CredentialChain : Type 0 where
  pub principal_arns : List String
  pub access_key_id : String
  pub secret_access_key : String
  pub session_token : Option String

pub record CredentialCache : Type 0 where
  pub principal_arn : String
  pub access_key_id : String
  pub secret_access_key : String
  pub session_token : Option String
  pub expires_at : ℕ

-- `AccessKeys`, and `AccessKeysWithExpiration` where the expiration is there.
pub record AccessKeys : Type 0 where
  pub access_key_id : String
  pub secret_access_key : String
  pub session_token : Option String
  pub expiration : Option String
