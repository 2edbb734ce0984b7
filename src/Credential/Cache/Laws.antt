-- ===== src/Credential/Cache/Laws.antt =====
-- What the credential cache gives back.
use aws_access_bridge.Base.{
  ℕ, ◌+◌, ◌≤◌, ◌<◌, String, ◌≡◌, refl, sym, ap, none, some, List, [], ◌∷◌, true, eq_refl, lt→leb,
  le→leb, is_set,
}
use aws_access_bridge.Base.Errors.{ok}
use aws_access_bridge.Crypto.{IsAuthentic}
use aws_access_bridge.Crypto.Laws.{decrypt_data_field-encrypt_data}
use aws_access_bridge.Credential.Model.{CredentialCache}
use aws_access_bridge.Credential.Vault.{Vault, Settings, update}
use aws_access_bridge.Credential.Cache.{
  cached_data, read_entry, get_cached_credential, store_cached_credential, invalidate,
}

module _ (s : Settings) (v : IsAuthentic s.cipher) (key : String) (older : List String)
    (keys : s.cache_keys ≡ key ∷ older) (n : ℕ) (c : CredentialCache) (token : String)
    (has_token : c.session_token ≡ some token) where
  read_entry-cached_data : read_entry s c.principal_arn (cached_data s n key c token) ≡ some c
  unfolding read_entry cached_data
  read_entry-cached_data =
      let a = (decrypt_data_field-encrypt_data s.cipher v n c.access_key_id key older [] tt).1 in
      let b =
        (decrypt_data_field-encrypt_data s.cipher v (n + 1) c.secret_access_key key older []
          tt).1 in
      let t = (decrypt_data_field-encrypt_data s.cipher v (n + 2) token key older [] tt).1 in
      rw (keys, a, b, t) (ap (λ o. some (record c { session_token = o })) (sym has_token))

  stored : Vault → Vault
  stored w = record w {
    cache = update w.cache c.principal_arn (some (cached_data s n key c token));
  }

  store_cached_credential-eq :
      (w : Vault) → is_set token ≡ true → store_cached_credential s n c w ≡ (ok tt, stored w)
  unfolding store_cached_credential stored
  store_cached_credential-eq w h = rw (has_token, h, keys) refl

  cache-stored : (w : Vault) → (stored w).cache c.principal_arn ≡ some (cached_data s n key c token)
  unfolding stored
  cache-stored w = rw (eq_refl c.principal_arn) refl

  -- A credential with a session token that is stored in the cache, under the first of the keys of
  -- an authentic cipher, is read back whole until it expires; from then on the read is a miss, and
  -- deletes the entry.
  pub get-store_cached_credential :
      (now : ℕ) (w : Vault)
      → is_set token ≡ true
      → let w' = (store_cached_credential s n c w).1 in
        (now < c.expires_at → get_cached_credential s now c.principal_arn w' ≡ (ok (some c), w'))
        × (c.expires_at ≤ now
            → get_cached_credential s now c.principal_arn w'
              ≡ (ok none, (invalidate c.principal_arn w').1))
  unfolding get_cached_credential cached_data
  get-store_cached_credential now w h = rw (store_cached_credential-eq w h) (
    λ fresh.
        rw
          (
            get_cached_credential,
            cache-stored w,
            lt→leb c.expires_at now fresh,
            read_entry-cached_data,
          )
          refl,
    λ stale. rw (get_cached_credential, cache-stored w, le→leb c.expires_at now stale) refl,
  )
