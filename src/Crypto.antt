-- ===== src/Crypto.antt =====
-- packages/backend-data/src/crypto/aes-gcm.ts. The cipher itself is @rexezuge/d1's, a parameter.
pub mod Laws
pub mod Tests
use aws_access_bridge.Base.{
  ℕ, String, Option, none, some, List, [], ◌∷◌, ◌≡◌, true, ◌&&◌, is_set, present, text_or_empty,
  if◌then◌else◌,
}
use aws_access_bridge.Base.Errors.{Result, ok, err, plain_error}

pub record Envelope : Type 0 where
  pub ciphertext : String
  pub iv : String

-- `encryptSecret`, with the randomness that it draws as its first argument, and `decryptSecret`,
-- which throws where the key does not authenticate the ciphertext.
pub record Cipher : Type 0 where
  pub encrypt_secret : ℕ → String → String → Envelope
  pub decrypt_secret : Envelope → String → Result String

-- What AES-GCM promises of a key's own envelopes, and that no part of one is empty.
pub record IsAuthentic (c : Cipher) : Type 0 where
  pub opens :
      (n : ℕ) (text key : String) → c.decrypt_secret (c.encrypt_secret n text key) key ≡ ok text
  pub ciphertext_set :
      (n : ℕ) (text key : String) → is_set (c.encrypt_secret n text key).ciphertext ≡ true
  pub iv_set : (n : ℕ) (text key : String) → is_set (c.encrypt_secret n text key).iv ≡ true

abbrev missing_envelope : String
missing_envelope = "Cannot decrypt: the ciphertext or its IV is missing."

-- The source's message goes on with the number of keys and the last error.
abbrev no_key : String
no_key = "No key in the chain could authenticate this ciphertext"

module _ (c : Cipher) where
  unfoldable pub encrypt_data : ℕ → String → String → Envelope
  encrypt_data n text key = c.encrypt_secret n text key

  unfoldable decrypt_data : String → String → String → Result String
  decrypt_data ciphertext iv key =
      c.decrypt_secret (record { ciphertext = ciphertext; iv = iv }) key

  -- The loop over the keys: the first that authenticates.
  unfoldable pub first_key : String → String → List String → Result String
  unfolding decrypt_data
  first_key ciphertext iv [] = err (plain_error no_key)
  first_key ciphertext iv (key ∷ keys) = elim (decrypt_data ciphertext iv key) [
    | ok text ↦ ok text
    | err e ↦ first_key ciphertext iv keys
  ]

  unfoldable decrypt_data_with_keys : Option String → Option String → List String → Result String
  unfolding first_key
  decrypt_data_with_keys ciphertext iv keys =
      if present ciphertext && present iv
      then first_key (text_or_empty ciphertext) (text_or_empty iv) keys
      else err (plain_error missing_envelope)

  unfoldable to_some : Result String → Result (Option String)
  to_some (ok text) = ok (some text)
  to_some (err e) = err e

  -- Absent is `none`; there and unreadable throws.
  unfoldable pub decrypt_data_field :
      Option String → Option String → List String → Result (Option String)
  unfolding decrypt_data_with_keys to_some
  decrypt_data_field ciphertext iv keys =
      if present ciphertext && present iv
      then to_some (decrypt_data_with_keys ciphertext iv keys)
      else ok none

  unfoldable readable : Result String → Option String
  readable (ok text) = some text
  readable (err e) = none

  -- Absent and unreadable are both `none`.
  unfoldable pub decrypt_data_tolerant : Option String → Option String → List String → Option String
  unfolding first_key readable
  decrypt_data_tolerant ciphertext iv keys =
      if present ciphertext && present iv
      then readable (first_key (text_or_empty ciphertext) (text_or_empty iv) keys)
      else none
