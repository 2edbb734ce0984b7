-- ===== src/Credential/Table.antt =====
-- packages/backend-data/src/dao/CredentialsDAO.ts, but for the walk (Chain/Cold.antt), and
-- packages/backend-data/src/dao/CredentialCacheConfigDAO.ts.
use aws_access_bridge.Base.{
  ℕ, ◌+◌, String, Option, none, some, List, [], ◌∷◌, present, if◌then◌else◌,
}
use aws_access_bridge.Base.Errors.{Result, ok, err, not_found, database, ◌>>=◌}
use aws_access_bridge.Base.Exec.{Exec, continue}
use aws_access_bridge.Crypto.{Envelope, encrypt_data, decrypt_data_field}
use aws_access_bridge.Credential.Model.{Credential}
use aws_access_bridge.Credential.Vault.{CredentialRow, Vault, Settings, update}

abbrev no_credentials : String
no_credentials = "No credentials are stored for this principal."

abbrev no_encryption_key : String
no_encryption_key = "No encryption key is configured for this DAO."

-- `fieldIv ?? legacySalt`
unfoldable pub resolve_iv : Option String → Option String → Option String
resolve_iv (some iv) salt = some iv
resolve_iv none salt = salt

-- The getter `encryptionKey` of `EncryptedDAO`.
unfoldable pub encryption_key : List String → Result String
encryption_key [] = err (database no_encryption_key)
encryption_key (key ∷ keys) = ok key

abbrev empty_row : CredentialRow
empty_row = record {
  assumed_by = none;
  encrypted_access_key_id = none;
  encrypted_secret_access_key = none;
  encrypted_session_token = none;
  salt = none;
  salt_secret_access_key = none;
  salt_session_token = none;
}

-- The row that a conflict keeps, or a new one.
abbrev pub existing : Option CredentialRow → CredentialRow
existing none = empty_row
existing (some row) = row

module _ (s : Settings) where
  -- A row with its fields decrypted.
  unfoldable pub decrypt_row : String → CredentialRow → Result Credential
  unfolding resolve_iv
  decrypt_row principal_arn row =
      decrypt_data_field s.cipher row.encrypted_access_key_id row.salt s.credential_keys
      >>= λ access_key_id.
          decrypt_data_field s.cipher row.encrypted_secret_access_key
            (resolve_iv row.salt_secret_access_key row.salt) s.credential_keys
          >>= λ secret_access_key.
              decrypt_data_field s.cipher row.encrypted_session_token
                (resolve_iv row.salt_session_token row.salt) s.credential_keys
              >>= λ session_token. ok (record {
                principal_arn = principal_arn;
                assumed_by = row.assumed_by;
                access_key_id = access_key_id;
                secret_access_key = secret_access_key;
                session_token = session_token;
              })

  unfoldable pub get_credential : Vault → String → Result Credential
  unfolding decrypt_row
  get_credential v principal_arn = elim (v.credentials principal_arn) [
    | none ↦ err (not_found no_credentials)
    | some row ↦ decrypt_row principal_arn row
  ]

  -- `sessionToken ? await encryptData(…) : null`
  unfoldable pub encrypt_token : ℕ → Option String → String → Option Envelope
  encrypt_token n none key = none
  encrypt_token n (some token) key =
      if present (some token) then some (encrypt_data s.cipher n token key) else none

  abbrev ciphertext_of : Option Envelope → Option String
  ciphertext_of none = none
  ciphertext_of (some e) = some e.ciphertext

  abbrev iv_of : Option Envelope → Option String
  iv_of none = none
  iv_of (some e) = some e.iv

  -- The row that `storeCredential` writes; `n` is the randomness that its three encryptions draw.
  unfoldable pub stored_row :
      ℕ → String → String → Option String → String → CredentialRow → CredentialRow
  unfolding encrypt_token
  stored_row n access_key_id secret_access_key session_token key row =
      let a = encrypt_data s.cipher n access_key_id key in
      let b = encrypt_data s.cipher (n + 1) secret_access_key key in
      let t = encrypt_token (n + 2) session_token key in
      record row {
        encrypted_access_key_id = some a.ciphertext;
        encrypted_secret_access_key = some b.ciphertext;
        encrypted_session_token = ciphertext_of t;
        salt = some a.iv;
        salt_secret_access_key = some b.iv;
        salt_session_token = iv_of t;
      }

  unfoldable pub store_credential : ℕ → String → String → String → Option String → Exec Vault Unit
  unfolding encryption_key
  store_credential n principal_arn access_key_id secret_access_key session_token v =
      continue (encryption_key s.credential_keys)
        (λ key v'. (
          ok tt,
          record v' {
            credentials = update v'.credentials principal_arn (
                some (
                  stored_row n access_key_id secret_access_key session_token key
                    (existing (v'.credentials principal_arn))));
          },
        ))
        v

unfoldable pub store_credential_relationship : String → String → Exec Vault Unit
store_credential_relationship principal_arn assumed_by v = (
  ok tt,
  record v {
    credentials =
        update v.credentials principal_arn
          (some (record (existing (v.credentials principal_arn)) { assumed_by = some assumed_by }));
  },
)

unfoldable pub remove_credential : String → Exec Vault Unit
remove_credential principal_arn v =
    (ok tt, record v { credentials = update v.credentials principal_arn none })
