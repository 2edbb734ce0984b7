-- ===== src/Credential/Walker.antt =====
-- packages/backend-services/src/credential/CredentialChainWalker.ts: the walk from the base credentials to
-- the target, once for its keys and once as a test, and the two services of CredentialChainService.ts that
-- use it. The client of STS is a parameter.
pub mod Report
use Prim.Native.String
use aws_access_bridge.Base.{
  ℕ, zero, suc, ◌-◌, String, Option, none, some, List, [], ◌∷◌, ◌++◌, Bool, true, false, not,
  is_set, length, get_elem?, if◌then◌else◌,
}
use aws_access_bridge.Base.Errors.{ServiceError, Result, ok, err, bad_request, ◌>>=◌}
use aws_access_bridge.Credential.Model.{CredentialChain, AccessKeys}

abbrev pub keys_of_chain : CredentialChain → AccessKeys
keys_of_chain chain = record {
  access_key_id = chain.access_key_id;
  secret_access_key = chain.secret_access_key;
  session_token = chain.session_token;
  expiration = none;
}

abbrev pub arn_at : List String → ℕ → String
arn_at arns i = elim (get_elem? arns i) [ none ↦ "undefined" | some arn ↦ arn ]

-- `ChainTestStep`
pub record ChainTestStep : Type 0 where
  pub arn : String
  pub status : String

-- What `ChainTestWalker` keeps beside the keys.
pub record TestState : Type 0 where
  pub steps : List ChainTestStep
  pub failed : Bool
  pub keys : AccessKeys

abbrev ok_base : String
ok_base = "ok (base credentials)"

-- `assume arn keys session` is `StsService.assumeRole`; `message` is an error's message.
module _ (assume : String → AccessKeys → String → Result AccessKeys)
    (message : ServiceError → String) (session_name : String) where
  -- The loop of `walk` with the hop of `LeafCredentialsWalker`, for the `n` roles above the keys.
  unfoldable pub leaf_walk : List String → ℕ → AccessKeys → Result AccessKeys
  leaf_walk arns zero credentials = ok credentials
  leaf_walk arns (suc i) credentials =
      assume (arn_at arns i) credentials session_name >>= λ new. leaf_walk arns i new

  unfoldable pub walk_to_leaf : CredentialChain → Result AccessKeys
  walk_to_leaf chain =
      leaf_walk chain.principal_arns (length chain.principal_arns - 1) (keys_of_chain chain)

  -- The hop of `ChainTestWalker`: after a failure nothing more is tried.
  unfoldable pub test_hop : String → TestState → TestState
  test_hop role_arn t = if t.failed then t else elim (assume role_arn t.keys session_name) [
    | ok new ↦ record {
      steps = t.steps ++ record { arn = role_arn; status = "ok" } ∷ [];
      failed = false;
      keys = new;
    }
    | err e ↦ record t {
      steps =
          t.steps ++ record { arn = role_arn; status = String.◌++◌ "failed: " (message e) } ∷ [];
      failed = true;
    }
  ]

  unfoldable pub test_walk : List String → ℕ → TestState → TestState
  test_walk arns zero t = t
  test_walk arns (suc i) t = test_walk arns i (test_hop (arn_at arns i) t)

  abbrev pub last_arn : List String → Option String
  last_arn [] = none
  last_arn (arn ∷ []) = some arn
  last_arn (arn ∷ next ∷ arns) = last_arn (next ∷ arns)

  -- `onBaseCredentials`
  unfoldable pub base_steps : List String → List ChainTestStep
  base_steps arns = elim (last_arn arns) [
    | none ↦ []
    | some arn ↦ if is_set arn then record { arn = arn; status = ok_base } ∷ [] else []
  ]

  -- `{ success, chain }`
  unfoldable pub walk_test : CredentialChain → Bool × List ChainTestStep
  walk_test chain =
      let t = test_walk chain.principal_arns (length chain.principal_arns - 1) (record {
        steps = base_steps chain.principal_arns;
        failed = false;
        keys = keys_of_chain chain;
      }) in
      (not t.failed, t.steps)

module _ (assume : String → AccessKeys → String → Result AccessKeys)
    (message : ServiceError → String) (get_credential_chain : String → Result CredentialChain) where
  unfoldable pub resolve_leaf_credentials : String → String → Result (CredentialChain × AccessKeys)
  resolve_leaf_credentials principal_arn session_name =
      get_credential_chain principal_arn >>= λ chain.
      walk_to_leaf assume message session_name chain >>= λ credentials. ok (chain, credentials)

  unfoldable test_chain : String → String → Result (Bool × List ChainTestStep)
  test_chain principal_arn session_name =
      if not (is_set principal_arn)
      then err (bad_request "Missing required field: principalArn.")
      else get_credential_chain principal_arn >>= λ chain.
          ok (walk_test assume message session_name chain)
