-- ===== src/Credential/Chain/Warm.antt =====
-- `getCredentialChainToFirstCachedPrincipal` of
-- packages/backend-services/src/credential/CredentialChainService.ts
use aws_access_bridge.Base.{
  ℕ, zero, suc, ◌+◌, String, Option, none, some, List, [], ◌∷◌, ◌++◌, Bool, true, false, not, ◌&&◌,
  ◌==◌, leb, length, present, if◌then◌else◌,
}
use aws_access_bridge.Base.Errors.{Result, ok, err, internal_server, forbidden, out_of_fuel}
use aws_access_bridge.Base.Exec.{Exec, throw, lift, pure, ◌>>=◌}
use aws_access_bridge.Credential.Model.{Credential, CredentialChain, CredentialCache}
use aws_access_bridge.Credential.Chain.{too_deep, not_valid, long_term, step_to, chain_of, has_keys}

abbrev pub cached_chain : List String → CredentialCache → CredentialChain
cached_chain arns c = record {
  principal_arns = arns;
  access_key_id = c.access_key_id;
  secret_access_key = c.secret_access_key;
  session_token = c.session_token;
}

-- What follows the loop.
unfoldable pub warm_end : List String → Credential → Result CredentialChain
warm_end trust_chain c =
    if has_keys c
    then (if leb (length trust_chain) 1
        then err (forbidden long_term)
        else ok (chain_of trust_chain c))
    else err (internal_server not_valid)

-- `limit` is `getTrustChainLimit()`, `read` is `getCredentialByPrincipalArn`, and `cached` is
-- `getCachedCredential`, which may delete from the key-value store.
module _ {Kv : Type 0} (limit : ℕ) (read : String → Result Credential)
    (cached : String → Exec Kv (Option CredentialCache)) where
  -- The cache is consulted for an intermediate principal below the boundary.
  unfoldable pub consult : Bool → String → Exec Kv (Option CredentialCache)
  consult false arn kv = (ok none, kv)
  consult true arn kv = cached arn kv

  unfoldable pub warm_loop : ℕ → ℕ → String → String → List String → Exec Kv CredentialChain
  unfolding consult
  warm_loop zero hops principal_arn assumed_by before = throw out_of_fuel
  warm_loop (suc fuel) hops principal_arn assumed_by before =
      let trust_chain = before ++ assumed_by ∷ [] in
      let at_boundary = leb limit (hops + 1) in
      consult (not (assumed_by == principal_arn) && not at_boundary) assumed_by >>= λ hit.
      elim hit [
        | some c ↦ pure (cached_chain trust_chain c)
        | none ↦ lift (read assumed_by) >>= λ credential.
            let rest =
              warm_loop fuel (hops + 1) principal_arn (step_to credential.assumed_by assumed_by)
                trust_chain in
            if at_boundary && present credential.assumed_by
            then throw (internal_server too_deep)
            else if present credential.assumed_by
            then rest
            else lift (warm_end trust_chain credential)
      ]

  unfoldable pub get_chain_to_first_cached : String → Exec Kv CredentialChain
  get_chain_to_first_cached principal_arn = warm_loop (suc limit) 0 principal_arn principal_arn []
