-- ===== src/Credential/Store/Laws.antt =====
-- What a write to the credential tables changes and what it leaves.
use aws_access_bridge.Base.{
  ℕ, ◌+◌, String, ◌≡◌, ◌≢◌, refl, Option, none, some, List, [], ◌∷◌, true, is_set,
}
use aws_access_bridge.Base.Errors.{ok}
use aws_access_bridge.Crypto.{Cipher, IsAuthentic, encrypt_data, decrypt_data_field}
use aws_access_bridge.Crypto.Laws.{decrypt_data_field-encrypt_data}
use aws_access_bridge.Credential.Vault.{
  CredentialRow, Vault, Settings, update, update-same, update-other,
}
use aws_access_bridge.Credential.Table
use aws_access_bridge.Credential.Table.{
  get_credential, decrypt_row, existing, stored_row, encrypt_token, encryption_key, resolve_iv,
}
use aws_access_bridge.Credential.Store.{store_credential}

-- A session token is absent, or there and not empty.
abbrev pub IsToken : Option String → Type 0
IsToken none = Unit
IsToken (some t) = is_set t ≡ true

absent :
    (c : Cipher) (iv : Option String) (keys : List String)
    → decrypt_data_field c none iv keys ≡ ok none
unfolding decrypt_data_field
absent c iv keys = refl

module _ (s : Settings) (v : IsAuthentic s.cipher) (key : String) (older : List String)
    (keys : s.credential_keys ≡ key ∷ older) (n : ℕ) (arn a b : String) where
  decrypt_row-stored_row :
      (token : Option String) (row : CredentialRow)
      → IsToken token
      → decrypt_row s arn (stored_row s n a b token key row)
        ≡ ok (record {
          principal_arn = arn;
          assumed_by = row.assumed_by;
          access_key_id = some a;
          secret_access_key = some b;
          session_token = token;
        })
  unfolding decrypt_row stored_row
  decrypt_row-stored_row none row h =
      let p = (decrypt_data_field-encrypt_data s.cipher v n a key older [] tt).0 in
      let q = (decrypt_data_field-encrypt_data s.cipher v (n + 1) b key older [] tt).0 in
      rw (keys, p, q, absent s.cipher (some (encrypt_data s.cipher n a key).iv) (key ∷ older)) refl
  decrypt_row-stored_row (some t) row h =
      let p = (decrypt_data_field-encrypt_data s.cipher v n a key older [] tt).0 in
      let q = (decrypt_data_field-encrypt_data s.cipher v (n + 1) b key older [] tt).0 in
      let r = (decrypt_data_field-encrypt_data s.cipher v (n + 2) t key older [] tt).0 in
      rw (h, keys, p, q, r) refl

  written : Option String → Vault → Vault
  written token w = record w {
    credentials =
        update w.credentials arn
          (some (stored_row s n a b token key (existing (w.credentials arn))));
  }

  store_credential-eq :
      (token : Option String) (w : Vault)
      → is_set arn ≡ true
      → is_set a ≡ true
      → is_set b ≡ true
      → store_credential s n arn a b token w ≡ (ok tt, written token w)
  unfolding store_credential Table.store_credential written encryption_key
  store_credential-eq token w i j k = rw (i, j, k, keys) refl

  -- Keys that are stored for a principal under an authentic cipher are read back, with the first of
  -- the encryption keys, and with the relation that the principal already had, where no field is
  -- empty; the session token may be absent. Every other principal's row is as it was.
  pub get-store_credential :
      (token : Option String) (w : Vault)
      → is_set arn ≡ true
      → is_set a ≡ true
      → is_set b ≡ true
      → IsToken token
      → let (r, w') = store_credential s n arn a b token w in
        (r ≡ ok tt)
        × (get_credential s w' arn
            ≡ ok (record {
              principal_arn = arn;
              assumed_by = (existing (w.credentials arn)).assumed_by;
              access_key_id = some a;
              secret_access_key = some b;
              session_token = token;
            }))
        × ((other : String) → other ≢ arn → w'.credentials other ≡ w.credentials other)
  unfolding get_credential written
  get-store_credential token w i j k h = rw (store_credential-eq token w i j k) (
    refl,
    rw
        (
          get_credential,
          update-same w.credentials arn
              (some (stored_row s n a b token key (existing (w.credentials arn)))),
        )
        (decrypt_row-stored_row token (existing (w.credentials arn)) h),
    λ other. λ d.
        update-other w.credentials arn
          (some (stored_row s n a b token key (existing (w.credentials arn)))) other d,
  )
