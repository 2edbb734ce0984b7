-- ===== src/Credential/Store/Relations.antt =====
-- Relating a principal to the one that assumes it, removing it, and the guards of every write.
use aws_access_bridge.Base.{
  ℕ, String, ◌≡◌, refl, inl, inr, Option, none, some, true, not, ◌||◌, is_set, Bool-cases,
  if◌then◌else◌,
}
use aws_access_bridge.Base.Errors.{ok, bad_request, Result-cases}
use aws_access_bridge.Base.Exec.{◌>>◌, IsAtomic, throw_if-IsAtomic, ok-IsAtomic}
use aws_access_bridge.Arn.{is_principal_arn}
use aws_access_bridge.Credential.Vault.{CachedCredentialData, Vault, Settings, update}
use aws_access_bridge.Credential.Table
use aws_access_bridge.Credential.Table.{get_credential, existing, encryption_key}
use aws_access_bridge.Credential.Cache.{create_cache_config, delete_cache_config, or_default}
use aws_access_bridge.Credential.Store.{
  missing_fields, bad_principal, bad_assumed_by, store_credential, store_credential_relationship,
  remove_credential, invalidate_cached_credential,
}

module _ (s : Settings) (arn : String) where
  -- What `invalidate_cached_credential` leaves in the cache.
  abbrev pub cache_without : Vault → String → Option CachedCredentialData
  cache_without w = if s.has_kv then update w.cache arn none else w.cache

  -- A relation between two principals in the ARN format is written over the row of the first and
  -- leaves its keys; its cached credentials are gone where the cache is configured; it is
  -- registered for the refresh, with the time it had; nothing is changed elsewhere.
  pub store_credential_relationship_lem :
      (assumed_by : String) (w : Vault)
      → is_set arn ≡ true
      → is_set assumed_by ≡ true
      → is_principal_arn arn ≡ true
      → is_principal_arn assumed_by ≡ true
      → store_credential_relationship s arn assumed_by w ≡ (
        ok tt,
        record {
          credentials =
              update w.credentials arn
                (some (record (existing (w.credentials arn)) { assumed_by = some assumed_by }));
          cache = cache_without w;
          cache_config = update w.cache_config arn (some (or_default (w.cache_config arn)));
        },
      )
  unfolding store_credential_relationship invalidate_cached_credential create_cache_config
      Table.store_credential_relationship
  store_credential_relationship_lem assumed_by w i j k l = elim (Bool-cases s.has_kv) [
    | inl e ↦ rw (i, j, k, l, e) refl
    | inr e ↦ rw (i, j, k, l, e) refl
  ]

  pub remove_credential_lem :
      (w : Vault)
      → is_set arn ≡ true
      → is_principal_arn arn ≡ true
      → remove_credential s arn w ≡ (
        ok tt,
        record {
          credentials = update w.credentials arn none;
          cache = cache_without w;
          cache_config = update w.cache_config arn none;
        },
      )
  unfolding remove_credential invalidate_cached_credential delete_cache_config
      Table.remove_credential
  remove_credential_lem w i k = elim (Bool-cases s.has_kv) [
    | inl e ↦ rw (i, k, e) refl
    | inr e ↦ rw (i, k, e) refl
  ]

  store_credential-IsAtomic :
      (n : ℕ) (a b : String) (token : Option String) → IsAtomic (store_credential s n arn a b token)
  unfolding store_credential Table.store_credential
  store_credential-IsAtomic n a b token =
      throw_if-IsAtomic _ _ (Table.store_credential s n arn a b token) (λ w. λ e. λ p.
        elim (Result-cases (encryption_key s.credential_keys)) [
          | inl (key, q) ↦ cc (rw (q) at p)
          | inr (x, q) ↦ rw q refl
        ])

  store_credential_relationship-IsAtomic :
      (assumed_by : String) → IsAtomic (store_credential_relationship s arn assumed_by)
  unfolding store_credential_relationship invalidate_cached_credential
      Table.store_credential_relationship create_cache_config
  store_credential_relationship-IsAtomic assumed_by =
      throw_if-IsAtomic (not (is_set arn) || not (is_set assumed_by)) (bad_request missing_fields) _
        (throw_if-IsAtomic (not (is_principal_arn arn)) (bad_request bad_principal) _ (
          throw_if-IsAtomic (not (is_principal_arn assumed_by)) (bad_request bad_assumed_by) _ (
            ok-IsAtomic
              (Table.store_credential_relationship arn assumed_by
                >> invalidate_cached_credential s arn
                >> create_cache_config arn)
              (λ w. elim (Bool-cases s.has_kv) [
                | inl e ↦ (tt, rw e refl)
                | inr e ↦ (tt, rw e refl)
              ]))))

  remove_credential-IsAtomic : IsAtomic (remove_credential s arn)
  unfolding remove_credential invalidate_cached_credential Table.remove_credential
      delete_cache_config
  remove_credential-IsAtomic = throw_if-IsAtomic (not (is_set arn)) (bad_request missing_fields) _ (
      throw_if-IsAtomic (not (is_principal_arn arn)) (bad_request bad_principal) _ (
        ok-IsAtomic
          (Table.remove_credential arn
            >> invalidate_cached_credential s arn
            >> delete_cache_config arn)
          (λ w. elim (Bool-cases s.has_kv) [ inl e ↦ (tt, rw e refl) | inr e ↦ (tt, rw e refl) ])))

  -- A write that throws has changed nothing: neither a row, nor the cache, nor a registration.
  pub refused-IsAtomic :
      (n : ℕ) (a b assumed_by : String) (token : Option String)
      → IsAtomic (store_credential s n arn a b token)
        × IsAtomic (store_credential_relationship s arn assumed_by)
        × IsAtomic (remove_credential s arn)
  refused-IsAtomic n a b assumed_by token = (
    store_credential-IsAtomic n a b token,
    store_credential_relationship-IsAtomic assumed_by,
    remove_credential-IsAtomic,
  )
