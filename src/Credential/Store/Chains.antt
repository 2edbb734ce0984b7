-- ===== src/Credential/Store/Chains.antt =====
-- From the writes to the walk: stored base keys and a relation make a chain.
use aws_access_bridge.Base.{
  ℕ, ◌≤◌, String, ◌≡◌, ◌≢◌, refl, sym, ap, ◌∙◌, Option, none, some, List, [], ◌∷◌, true, false,
  arith, is_set, present,
}
use aws_access_bridge.Base.Errors.{ok}
use aws_access_bridge.Arn.{is_principal_arn}
use aws_access_bridge.Crypto.{IsAuthentic, decrypt_data_field}
use aws_access_bridge.Credential.Vault.{CredentialRow, Vault, Settings, update-same, update-other}
use aws_access_bridge.Credential.Table.{get_credential, decrypt_row, existing}
use aws_access_bridge.Credential.Store.{store_credential, store_credential_relationship}
use aws_access_bridge.Credential.Store.Laws.{IsToken, get-store_credential}
use aws_access_bridge.Credential.Store.Relations.{store_credential_relationship_lem}
use aws_access_bridge.Credential.Chain.Cold.{get_credential_chain}
use aws_access_bridge.Credential.Chain.Depth.{get_credential_chain_iff}

module _ (s : Settings) where
  get_credential-same :
      (v w : Vault) (arn : String)
      → v.credentials arn ≡ w.credentials arn
      → get_credential s v arn ≡ get_credential s w arn
  unfolding get_credential
  get_credential-same v w arn h = rw (get_credential, h) refl

  -- A principal with nothing but a relation.
  get_credential-relation :
      (v : Vault) (arn next : String)
      → v.credentials arn ≡ some (record (existing none) { assumed_by = some next })
      → get_credential s v arn
        ≡ ok (record {
          principal_arn = arn;
          assumed_by = some next;
          access_key_id = none;
          secret_access_key = none;
          session_token = none;
        })
  unfolding get_credential decrypt_row decrypt_data_field
  get_credential-relation v arn next h = rw (get_credential, h) refl

module _ (s : Settings) (v : IsAuthentic s.cipher) (key : String) (older : List String)
    (keys : s.credential_keys ≡ key ∷ older) (n : ℕ) (target base a b : String)
    (token : Option String) (w : Vault) where
  abbrev with_base : Vault
  with_base = (store_credential s n base a b token w).1

  abbrev pub related : Vault
  related = (store_credential_relationship s target base with_base).1

  related-credentials :
      is_set target ≡ true
      → is_set base ≡ true
      → is_principal_arn target ≡ true
      → is_principal_arn base ≡ true
      → target ≢ base
      → (related.credentials target
          ≡ some (record (existing (with_base.credentials target)) { assumed_by = some base }))
        × (related.credentials base ≡ with_base.credentials base)
  related-credentials i j k l d =
      let row = record (existing (with_base.credentials target)) { assumed_by = some base } in
      let e =
        ap (λ p. p.1.credentials)
          (store_credential_relationship_lem s target base with_base i j k l) in
      (
        ap (λ (f : String → Option CredentialRow). f target) e
            ∙ update-same with_base.credentials target (some row),
        ap (λ (f : String → Option CredentialRow). f base) e
            ∙ update-other with_base.credentials target (some row) base (λ q. d (sym q)),
      )

  -- Base keys that are stored under an authentic cipher, and a new role that is related to the
  -- base, resolve to the chain of the two with those keys, for a limit of two or more: the two are
  -- different principals in the ARN format, no field is empty, and the base is itself assumed by
  -- nobody.
  pub get_credential_chain-related :
      is_set target ≡ true
      → is_set base ≡ true
      → is_set a ≡ true
      → is_set b ≡ true
      → IsToken token
      → is_principal_arn target ≡ true
      → is_principal_arn base ≡ true
      → target ≢ base
      → w.credentials target ≡ none
      → present (existing (w.credentials base)).assumed_by ≡ false
      → 2 ≤ s.trust_chain_limit
      → get_credential_chain s.trust_chain_limit (get_credential s related) target
        ≡ ok (record {
          principal_arns = target ∷ base ∷ [];
          access_key_id = a;
          secret_access_key = b;
          session_token = token;
        })
  get_credential_chain-related i j x y t k l d new_role bottom fits =
      let (at_target, at_base) = related-credentials i j k l d in
      let (stored, back, others) =
        get-store_credential s v key older keys n base a b token w j x y t in
      (get_credential_chain_iff s.trust_chain_limit (get_credential s related) target _
          (omega arith)).1
        (record {
          target = _;
          next = _;
          rows = [];
          read_target = get_credential-relation s related target base (
              at_target
              ∙ ap (λ o. some (record (existing o) { assumed_by = some base }))
                  (others target d ∙ new_role));
          follows = (j, get_credential-same s related with_base base at_base ∙ back, bottom);
          fits = fits;
          keys = rw (x, y) refl;
          result = refl;
        })
