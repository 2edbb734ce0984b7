-- ===== src/Crypto/Laws.antt =====
-- Reading a field back through a chain of keys.
use aws_access_bridge.Base.{ℕ, String, ◌≡◌, refl, some, List, [], ◌∷◌, ◌++◌}
use aws_access_bridge.Base.Errors.{ok, err, ServiceError}
use aws_access_bridge.Crypto.{
  Envelope, Cipher, IsAuthentic, encrypt_data, first_key, decrypt_data_field, decrypt_data_tolerant,
}

module _ (c : Cipher) (v : IsAuthentic c) where
  -- No key before the right one authenticates.
  abbrev Rejected : Envelope → List String → Type 0
  Rejected e [] = Unit
  Rejected e (key ∷ keys) =
      ((x : ServiceError) × (c.decrypt_secret e key ≡ err x)) × Rejected e keys

  module _ (n : ℕ) (text key : String) where
    first_key-encrypt_data :
        (older newer : List String)
        → Rejected (encrypt_data c n text key) newer
        → first_key c
            (encrypt_data c n text key).ciphertext
            (encrypt_data c n text key).iv
            (newer ++ key ∷ older)
          ≡ ok text
    unfolding first_key encrypt_data
    first_key-encrypt_data older [] h = rw (v.opens n text key, first_key)
    first_key-encrypt_data older (k ∷ newer) ((x, e), h) =
        rw (e, first_key) (first_key-encrypt_data older newer h)

    -- A field that was encrypted under one key of the chain is read back, whatever keys follow it,
    -- if the keys before it do not authenticate the envelope: what lets rows written under an older
    -- key go on decrypting after a new key is put in front. Both the strict and the tolerant read.
    pub decrypt_data_field-encrypt_data :
        (older newer : List String)
        → Rejected (encrypt_data c n text key) newer
        → (decrypt_data_field c
              (some (encrypt_data c n text key).ciphertext)
              (some (encrypt_data c n text key).iv)
              (newer ++ key ∷ older)
            ≡ ok (some text))
          × (decrypt_data_tolerant c
                (some (encrypt_data c n text key).ciphertext)
                (some (encrypt_data c n text key).iv)
                (newer ++ key ∷ older)
              ≡ some text)
    unfolding decrypt_data_field decrypt_data_tolerant encrypt_data
    decrypt_data_field-encrypt_data older newer h =
        let e = first_key-encrypt_data older newer h in
        let t = v.ciphertext_set n text key in
        let i = v.iv_set n text key in (rw (t, i, e) refl, rw (t, i, e) refl)
