-- ===== src/AssumeRole/Closest.antt =====
-- Where the walk down the chain starts.
use aws_access_bridge.Base.{
  ℕ, suc, ◌+◌, String, ◌≡◌, refl, ap, ◌∙◌, Option, none, some, List, [], ◌∷◌, ◌++◌, All, length,
  arith,
}
use aws_access_bridge.Base.Errors.{Result, ok}
use aws_access_bridge.Credential.Model.{CredentialChain, CredentialCache, AccessKeys}
use aws_access_bridge.AssumeRole.{
  Services, Start, base_keys, entry_keys, find_from, find_closest_cached_credential,
}

abbrev started : AccessKeys → ℕ → Result Start
started k n = ok (record { roles_left = n; credentials = k })

module _ {S : Type 0} (sv : Services S) (I : S → Type 0)
    (held : String → Option CredentialCache) where
  -- While `I` holds, and reads keep it, the cache answers with what `held` says.
  abbrev pub Answers : Type 0
  Answers =
      (arn : String) (w : S)
      → I w
      → ((sv.get_cached arn w).0 ≡ ok (held arn)) × I (sv.get_cached arn w).1

  abbrev Uncached : String → Type 0
  Uncached arn = held arn ≡ none

  find_from-Uncached :
      Answers
      → (i : ℕ) (arns : List String) (start : Start) (w : S) → I w
      → All Uncached arns
      → (find_from sv i arns start w).0 ≡ ok start
  unfolding find_from
  find_from-Uncached a i [] start w k h = refl
  find_from-Uncached a i (arn ∷ arns) start w k (n, h) =
      let (e, k') = a arn w k in rw (e, n) (find_from-Uncached a (i + 1) arns start _ k' h)

  find_from-hit :
      Answers
      → (i : ℕ) (before after : List String) (hit : String) (c : CredentialCache) (start : Start)
        (w : S)
      → I w
      → All Uncached before
      → held hit ≡ some c
      → (find_from sv i (before ++ hit ∷ after) start w).0
        ≡ ok (record { roles_left = i + length before; credentials = entry_keys c })
  unfolding find_from
  find_from-hit a i [] after hit c start w k h e =
      let (q, k') = a hit w k in rw (q, e) (ap (started (entry_keys c)) (omega arith))
  find_from-hit a i (arn ∷ before) after hit c start w k (n, h) e =
      let (q, k') = a arn w k in
      rw (q, n)
        (find_from-hit a (i + 1) before after hit c start _ k' h e
          ∙ ap (started (entry_keys c)) (omega arith))

  -- While the cache's answers do not change, the search starts from the cached principal that is
  -- closest to the target, the target itself left out, with its cached keys and their session token, and leaves the roles
  -- before it to assume. Where none is cached it starts from the base, with the keys of the chain
  -- but never with its session token.
  pub find_closest_cached_credential_lem :
      Answers
      → (chain : CredentialChain) (target : String) (w : S) → I w
      → ((rest : List String)
          → chain.principal_arns ≡ target ∷ rest
          → All Uncached rest
          → (find_closest_cached_credential sv chain w).0
            ≡ ok (record {
              roles_left = length rest;
              credentials = record {
                access_key_id = chain.access_key_id;
                secret_access_key = chain.secret_access_key;
                session_token = none;
                expiration = none;
              };
            }))
        × ((before after : List String) (hit : String) (c : CredentialCache)
            → chain.principal_arns ≡ target ∷ before ++ hit ∷ after
            → All Uncached before
            → held hit ≡ some c
            → (find_closest_cached_credential sv chain w).0
              ≡ ok (record {
                roles_left = suc (length before);
                credentials = record {
                  access_key_id = c.access_key_id;
                  secret_access_key = c.secret_access_key;
                  session_token = c.session_token;
                  expiration = none;
                };
              }))
  unfolding find_closest_cached_credential
  find_closest_cached_credential_lem a chain target w k = (
    λ rest e h.
        rw e (find_from-Uncached a 1 rest _ w k h ∙ ap (started (base_keys chain)) (omega arith)),
    λ before after hit c e h q. rw e (
        find_from-hit a 1 before after hit c _ w k h q ∙ ap (started (entry_keys c)) (omega arith)),
  )
