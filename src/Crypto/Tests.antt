-- ===== src/Crypto/Tests.antt =====
-- A concrete cipher, and a field that is read after a key was put in front.
use Prim.Native.String.{[], ◌∷◌}
use aws_access_bridge.Base.{
  String, ◌≡◌, refl, some, [], ◌∷◌, ◌++◌, ◌==◌, eq_refl, is_set-cons, if◌then◌else◌,
}
use aws_access_bridge.Base.Errors.{ok, err, plain_error}
use aws_access_bridge.Crypto.{
  Cipher, IsAuthentic, encrypt_data, decrypt_data_field, decrypt_data_tolerant,
}
use aws_access_bridge.Crypto.Laws.{decrypt_data_field-encrypt_data}

abbrev tail : String → String
tail [] = ""
tail (c ∷ s) = s

-- The envelope names the key in its IV, and its ciphertext is the text behind a mark.
abbrev pub labelled : Cipher
labelled = record {
  encrypt_secret = λ n text key. record { ciphertext = "*" ∷ text; iv = "#" ∷ key };
  decrypt_secret = λ e key.
      if e.iv == "#" ∷ key then ok (tail e.ciphertext) else err (plain_error "unauthenticated");
}

pub labelled-IsAuthentic : IsAuthentic labelled
labelled-IsAuthentic = record {
  opens = λ n text key. rw (eq_refl ("#" ∷ key)) refl;
  ciphertext_set = λ n text key. is_set-cons "*" text;
  iv_set = λ n text key. is_set-cons "#" key;
}

decrypt_data_field-encrypt_data_example :
    (decrypt_data_field labelled
        (some (encrypt_data labelled 0 "secret" "old").ciphertext)
        (some (encrypt_data labelled 0 "secret" "old").iv)
        (("new" ∷ []) ++ "old" ∷ "older" ∷ [])
      ≡ ok (some "secret"))
    × (decrypt_data_tolerant labelled
          (some (encrypt_data labelled 0 "secret" "old").ciphertext)
          (some (encrypt_data labelled 0 "secret" "old").iv)
          (("new" ∷ []) ++ "old" ∷ "older" ∷ [])
        ≡ some "secret")
unfolding encrypt_data
decrypt_data_field-encrypt_data_example =
    decrypt_data_field-encrypt_data labelled labelled-IsAuthentic 0 "secret" "old" ("older" ∷ [])
      ("new" ∷ []) ((plain_error "unauthenticated", refl), tt)
