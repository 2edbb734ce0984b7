-- ===== src/Credential/Vault.antt =====
-- The store of the credential code: the tables `credentials` and `credential_cache_config` of the
-- database, by primary key, and the key-value namespace of the credential cache.
use aws_access_bridge.Base.{
  ℕ, String, ◌≡◌, ◌≢◌, refl, sym, inl, inr, Option, List, Bool, Bool-cases, ◌==◌, eq_iff, eq_refl,
  if◌then◌else◌,
}
use aws_access_bridge.Crypto.{Cipher}

-- `CredentialInternal`, without its key.
pub record CredentialRow : Type 0 where
  pub assumed_by : Option String
  pub encrypted_access_key_id : Option String
  pub encrypted_secret_access_key : Option String
  pub encrypted_session_token : Option String
  pub salt : Option String
  pub salt_secret_access_key : Option String
  pub salt_session_token : Option String

-- `CachedCredentialData`
pub record CachedCredentialData : Type 0 where
  pub encrypted_access_key_id : Option String
  pub encrypted_secret_access_key : Option String
  pub encrypted_session_token : Option String
  pub salt : Option String
  pub salt_secret_access_key : Option String
  pub salt_session_token : Option String
  pub expires_at : ℕ

pub record Vault : Type 0 where
  pub credentials : String → Option CredentialRow
  -- The entries of the credential cache, by the principal ARN in their keys. The service may drop
  -- an entry at any time after its time to live; the code tests `expires_at` by itself.
  pub cache : String → Option CachedCredentialData
  -- `last_cached_at`
  pub cache_config : String → Option ℕ

-- What the environment gives: the cipher, the key chains of the two surfaces, whether the
-- key-value namespace is bound, and the chain limit.
pub record Settings : Type 0 where
  pub cipher : Cipher
  pub credential_keys : List String
  pub cache_keys : List String
  pub has_kv : Bool
  pub trust_chain_limit : ℕ

-- A table after a write at one key.
abbrev pub update : {A : Type 0} → (String → Option A) → String → Option A → String → Option A
update t k v j = if k == j then v else t j

module _ {A : Type 0} (t : String → Option A) (k : String) (v : Option A) where
  pub update-same : update t k v k ≡ v
  update-same = rw (eq_refl k) refl

  pub update-other : (j : String) → j ≢ k → update t k v j ≡ t j
  update-other j h = elim (Bool-cases (k == j)) [
    | inl e ↦ absurd (h (sym ((eq_iff k j).0 e)))
    | inr e ↦ rw e refl
  ]
