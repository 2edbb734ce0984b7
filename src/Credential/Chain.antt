-- ===== src/Credential/Chain.antt =====
-- The two walks over `assumed_by`: `getCredentialChainByPrincipalArn` of CredentialsDAO.ts (cold) and
-- `getCredentialChainToFirstCachedPrincipal` of CredentialChainService.ts (warm), and what they share.
pub mod Linked
pub mod Cold
pub mod Depth
pub mod Agreement
pub mod Cut
pub mod Warm
use aws_access_bridge.Base.{
  text_or_empty, String, Option, none, some, List, Bool, ◌&&◌, is_set, present, if◌then◌else◌,
}
use aws_access_bridge.Credential.Model.{Credential, CredentialChain}

abbrev pub too_deep : String
too_deep = "Principal chain exceeds the maximum allowed depth. Contact system administrator."

abbrev pub not_valid : String
not_valid = "Principal chain is not valid. Contact system administrator."

abbrev pub long_term : String
long_term = "For security reasons, long-term credentials are not retrievable."

-- `if (credential.assumedBy) { assumedBy = credential.assumedBy; }`
abbrev pub step_to : Option String → String → String
step_to none at = at
step_to (some next) at = if is_set next then next else at

-- The chain from the rows of the walk, the last one apart.
abbrev pub chain_of : List String → Credential → CredentialChain
chain_of arns c = record {
  principal_arns = arns;
  access_key_id = text_or_empty c.access_key_id;
  secret_access_key = text_or_empty c.secret_access_key;
  session_token = c.session_token;
}

-- `credential.accessKeyId && credential.secretAccessKey`
abbrev pub has_keys : Credential → Bool
has_keys c = present c.access_key_id && present c.secret_access_key
