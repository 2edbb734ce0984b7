-- ===== src/Credential/Chain/Cold.antt =====
-- `getCredentialChainByPrincipalArn` of packages/backend-data/src/dao/CredentialsDAO.ts
use aws_access_bridge.Base.{
  ℕ, zero, suc, ◌+◌, String, List, [], ◌∷◌, ◌++◌, not, ◌&&◌, leb, length, map, present,
  if◌then◌else◌,
}
use aws_access_bridge.Base.Errors.{Result, ok, err, internal_server, forbidden, out_of_fuel, ◌>>=◌}
use aws_access_bridge.Credential.Model.{Credential, CredentialChain}
use aws_access_bridge.Credential.Chain.{too_deep, not_valid, long_term, step_to, chain_of, has_keys}

-- `limit` is `principalTrustChainLimit`, `read` is `getCredentialByPrincipalArn`.
module _ (limit : ℕ) (read : String → Result Credential) where
  -- What follows the loop.
  unfoldable pub cold_end : List Credential → Credential → Result CredentialChain
  cold_end trust_chain c =
      if not (has_keys c)
      then err (internal_server not_valid)
      else if leb (length trust_chain) 1
      then err (forbidden long_term)
      else ok (chain_of (map (λ r. r.principal_arn) trust_chain) c)

  -- The do-while loop, one round for each unit of fuel.
  unfoldable pub cold_loop : ℕ → ℕ → String → List Credential → Result CredentialChain
  cold_loop zero hops assumed_by before = err out_of_fuel
  cold_loop (suc fuel) hops assumed_by before = read assumed_by >>= λ credential.
      let trust_chain = before ++ credential ∷ [] in
      let rest = cold_loop fuel (hops + 1) (step_to credential.assumed_by assumed_by) trust_chain in
      if present credential.assumed_by && leb limit (hops + 1)
      then err (internal_server too_deep)
      else if present credential.assumed_by
      then rest
      else cold_end trust_chain credential

  unfoldable pub get_credential_chain : String → Result CredentialChain
  get_credential_chain principal_arn = cold_loop (suc limit) 0 principal_arn []
