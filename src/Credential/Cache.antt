-- ===== src/Credential/Cache.antt =====
-- packages/backend-data/src/dao/CredentialsCacheDAO.ts, and CredentialCacheConfigDAO.ts beside it.
-- The prefix that IKeyValueDAO.ts puts before each key is left out: it is the same everywhere.
pub mod Laws
use aws_access_bridge.Base.{
  ℕ, ◌+◌, ◌-◌, max, String, Option, none, some, List, [], ◌∷◌, Bool, true, false, not, ◌&&◌, ◌||◌,
  leb, is_set, present, if◌then◌else◌,
}
use aws_access_bridge.Base.Errors.{Result, ok, err, database}
use aws_access_bridge.Base.Exec.{Exec}
use aws_access_bridge.Crypto.{encrypt_data, decrypt_data_tolerant}
use aws_access_bridge.Credential.Model.{CredentialCache}
use aws_access_bridge.Credential.Table.{resolve_iv}
use aws_access_bridge.Credential.Vault.{CachedCredentialData, Vault, Settings, update}

unfoldable pub invalidate : String → Exec Vault Unit
invalidate principal_arn v = (ok tt, record v { cache = update v.cache principal_arn none })

-- The entry from its fields as they were read; `token_there` is
-- `cached.encryptedSessionToken !== undefined`.
unfoldable assemble :
    String → ℕ → Bool → Option String → Option String → Option String → Option CredentialCache
assemble arn expires_at token_there none b t = none
assemble arn expires_at token_there (some a) none t = none
assemble arn expires_at true (some a) (some b) none = none
assemble arn expires_at false (some a) (some b) none = some (record {
  principal_arn = arn;
  access_key_id = a;
  secret_access_key = b;
  session_token = none;
  expires_at = expires_at;
})
assemble arn expires_at token_there (some a) (some b) (some t) = some (record {
  principal_arn = arn;
  access_key_id = a;
  secret_access_key = b;
  session_token = some t;
  expires_at = expires_at;
})

abbrev is_some : Option String → Bool
is_some none = false
is_some (some s) = true

-- The entry that a stored value stands for, if all that is there can be read.
unfoldable pub read_entry : Settings → String → CachedCredentialData → Option CredentialCache
unfolding assemble resolve_iv
read_entry s arn d =
    assemble arn d.expires_at (is_some d.encrypted_session_token)
      (decrypt_data_tolerant s.cipher d.encrypted_access_key_id d.salt s.cache_keys)
      (decrypt_data_tolerant s.cipher d.encrypted_secret_access_key
        (resolve_iv d.salt_secret_access_key d.salt) s.cache_keys)
      (decrypt_data_tolerant s.cipher d.encrypted_session_token
        (resolve_iv d.salt_session_token d.salt) s.cache_keys)

-- A hit is returned; a miss that was there is deleted.
unfoldable hit_or_delete : String → Option CredentialCache → Exec Vault (Option CredentialCache)
unfolding invalidate
hit_or_delete arn none v = (ok none, (invalidate arn v).1)
hit_or_delete arn (some c) v = (ok (some c), v)

-- `getCachedCredential`, at the time `now` in seconds.
unfoldable pub get_cached_credential : Settings → ℕ → String → Exec Vault (Option CredentialCache)
unfolding read_entry hit_or_delete
get_cached_credential s now arn v = elim (v.cache arn) [
  | none ↦ (ok none, v)
  | some d ↦
      if leb d.expires_at now
      then hit_or_delete arn none v
      else hit_or_delete arn (read_entry s arn d) v
]

abbrev minimum_ttl : ℕ
minimum_ttl = 60

-- The time to live that the entry is stored with, in seconds.
unfoldable ttl_of : ℕ → ℕ → ℕ
ttl_of expires_at now = max (expires_at - now) minimum_ttl

abbrev no_cache_key : String
no_cache_key = "No encryption key is configured for the credential cache."

-- The value that is stored; `n` is the randomness that the three encryptions draw.
unfoldable pub cached_data : Settings → ℕ → String → CredentialCache → String → CachedCredentialData
cached_data s n key c token =
    let a = encrypt_data s.cipher n c.access_key_id key in
    let b = encrypt_data s.cipher (n + 1) c.secret_access_key key in
    let t = encrypt_data s.cipher (n + 2) token key in
    record {
      encrypted_access_key_id = some a.ciphertext;
      encrypted_secret_access_key = some b.ciphertext;
      encrypted_session_token = some t.ciphertext;
      salt = some a.iv;
      salt_secret_access_key = some b.iv;
      salt_session_token = some t.iv;
      expires_at = c.expires_at;
    }

unfoldable pub put_cached : Settings → ℕ → List String → CredentialCache → String → Exec Vault Unit
unfolding cached_data
put_cached s n [] c token v = (err (database no_cache_key), v)
put_cached s n (key ∷ keys) c token v = (
  ok tt,
  record v { cache = update v.cache c.principal_arn (some (cached_data s n key c token)) },
)

-- `storeCachedCredential`: an entry without a session token is not stored.
unfoldable pub store_cached_credential : Settings → ℕ → CredentialCache → Exec Vault Unit
unfolding put_cached
store_cached_credential s n c v = elim c.session_token [
  | none ↦ (ok tt, v)
  | some token ↦ if is_set token then put_cached s n s.cache_keys c token v else (ok tt, v)
]

-- `INSERT OR IGNORE`: a registered principal keeps its time. A new row has the default, 0.
abbrev pub or_default : Option ℕ → ℕ
or_default none = 0
or_default (some t) = t

unfoldable pub create_cache_config : String → Exec Vault Unit
create_cache_config arn v = (
  ok tt,
  record v { cache_config = update v.cache_config arn (some (or_default (v.cache_config arn))) },
)

unfoldable pub delete_cache_config : String → Exec Vault Unit
delete_cache_config arn v = (ok tt, record v { cache_config = update v.cache_config arn none })

abbrev pub stamp : ℕ → Option ℕ → Option ℕ
stamp now none = none
stamp now (some t) = some now

unfoldable pub update_last_cached_time : ℕ → String → Exec Vault Unit
update_last_cached_time now arn v =
    (ok tt, record v { cache_config = update v.cache_config arn (stamp now (v.cache_config arn)) })
