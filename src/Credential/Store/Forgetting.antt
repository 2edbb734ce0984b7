-- ===== src/Credential/Store/Forgetting.antt =====
-- What a relation that is written, and a principal that is removed, leave in the three tables and in the
-- cache.
use aws_access_bridge.Base.{
  ℕ, String, ◌≡◌, ◌≢◌, sym, ap, ◌∙◌, subst, inl, inr, Option, none, some, true, is_set, Bool-cases,
  if-true,
}
use aws_access_bridge.Base.Errors.{Result, ok}
use aws_access_bridge.Arn.{is_principal_arn}
use aws_access_bridge.Credential.Vault.{
  CachedCredentialData, CredentialRow, Vault, Settings, update, update-same, update-other,
}
use aws_access_bridge.Credential.Table.{existing}
use aws_access_bridge.Credential.Cache.{or_default}
use aws_access_bridge.Credential.Store.{store_credential_relationship, remove_credential}
use aws_access_bridge.Credential.Store.Relations.{
  store_credential_relationship_lem, remove_credential_lem, cache_without,
}

abbrev written :
    (String → Option CredentialRow)
    → (String → Option CachedCredentialData)
    → (String → Option ℕ)
    → Vault
written rows entries times = record { credentials = rows; cache = entries; cache_config = times }

module _ (s : Settings) (arn : String) where
  -- The rows, the cached credentials and the registrations of the other principals are as they were.
  abbrev pub IsApart : Vault → Vault → Type 0
  IsApart v t =
      (other : String)
      → other ≢ arn
      → (t.credentials other ≡ v.credentials other)
        × (t.cache other ≡ v.cache other)
        × (t.cache_config other ≡ v.cache_config other)

  -- A write that returns has passed its guards.
  related_guards :
      (assumed_by : String) (v t : Vault)
      → store_credential_relationship s arn assumed_by v ≡ (ok tt, t)
      → (is_set arn ≡ true)
        × (is_set assumed_by ≡ true)
        × (is_principal_arn arn ≡ true)
        × (is_principal_arn assumed_by ≡ true)
  unfolding store_credential_relationship
  related_guards assumed_by v t e = elim (Bool-cases (is_set arn)) [
    | inr a ↦ cc (rw a at e)
    | inl a ↦ elim (Bool-cases (is_set assumed_by)) [
      | inr b ↦ cc (rw (a, b) at e)
      | inl b ↦ elim (Bool-cases (is_principal_arn arn)) [
        | inr c ↦ cc (rw (a, b, c) at e)
        | inl c ↦ elim (Bool-cases (is_principal_arn assumed_by)) [
          | inr d ↦ cc (rw (a, b, c, d) at e)
          | inl d ↦ (a, b, c, d)
        ]
      ]
    ]
  ]

  removed_guards :
      (v t : Vault)
      → remove_credential s arn v ≡ (ok tt, t)
      → (is_set arn ≡ true) × (is_principal_arn arn ≡ true)
  unfolding remove_credential
  removed_guards v t e = elim (Bool-cases (is_set arn)) [
    | inr a ↦ cc (rw a at e)
    | inl a ↦ elim (Bool-cases (is_principal_arn arn)) [
      | inr c ↦ cc (rw (a, c) at e)
      | inl c ↦ (a, c)
    ]
  ]

  written-IsApart :
      (row : Option CredentialRow) (time : Option ℕ) (v : Vault)
      → IsApart v (record {
        credentials = update v.credentials arn row;
        cache = update v.cache arn none;
        cache_config = update v.cache_config arn time;
      })
  written-IsApart row time v other h = (
    update-other v.credentials arn row other h,
    update-other v.cache arn none other h,
    update-other v.cache_config arn time other h,
  )

  module _ (kv : s.has_kv ≡ true) where
    cleared : (v : Vault) → cache_without s arn v ≡ update v.cache arn none
    cleared v = if-true _ _ _ kv

    -- With the cache configured, a relation that is written is one between two principals in the ARN format.
    -- Afterwards the cache holds no entry of the first principal; its row, where it had one, differs
    -- only in who assumes it; it is registered for the refresh, with the time it had or 0; and of
    -- the other principals no row, no cached entry and no registration has changed.
    pub store_credential_relationship-forgets :
        (assumed_by : String) (v t : Vault)
        → store_credential_relationship s arn assumed_by v ≡ (ok tt, t)
        → (is_principal_arn arn ≡ true)
          × (is_principal_arn assumed_by ≡ true)
          × (t.cache arn ≡ none)
          × ((row : CredentialRow)
              → v.credentials arn ≡ some row
              → t.credentials arn ≡ some (record row { assumed_by = some assumed_by }))
          × (v.cache_config arn ≡ none → t.cache_config arn ≡ some 0)
          × ((time : ℕ) → v.cache_config arn ≡ some time → t.cache_config arn ≡ some time)
          × IsApart v t
    store_credential_relationship-forgets assumed_by v t e =
        let (i, j, k, l) = related_guards assumed_by v t e in
        let row : CredentialRow = record (existing (v.credentials arn)) {
          assumed_by = some assumed_by;
        } in
        let time = some (or_default (v.cache_config arn)) in
        let made = λ (cache : String → Option CachedCredentialData).
          written (update v.credentials arn (some row)) cache (update v.cache_config arn time) in
        let same : t ≡ made (update v.cache arn none) =
          ap (λ (p : Result (Unit {0}) × Vault). p.1)
            (sym e ∙ store_credential_relationship_lem s arn assumed_by v i j k l)
          ∙ ap made (cleared v) in
        let registered : t.cache_config arn ≡ time =
          ap (λ (x : Vault). x.cache_config arn) same ∙ update-same v.cache_config arn time in
        (
          k,
          l,
          ap (λ (x : Vault). x.cache arn) same ∙ update-same v.cache arn none,
          (λ old h.
              ap (λ (x : Vault). x.credentials arn) same
              ∙ update-same v.credentials arn (some row)
              ∙ ap (λ o. some (record (existing o) { assumed_by = some assumed_by })) h),
          (λ h. registered ∙ ap (λ o. some (or_default o)) h),
          (λ old h. registered ∙ ap (λ o. some (or_default o)) h),
          subst (IsApart v) (sym same) (written-IsApart (some row) time v),
        )

    -- With the cache configured, the removal of a principal that returns leaves no row, no cached entry and
    -- no registration of it, and changes none of another principal.
    pub remove_credential-forgets :
        (v t : Vault)
        → remove_credential s arn v ≡ (ok tt, t)
        → (t.credentials arn ≡ none)
          × (t.cache arn ≡ none)
          × (t.cache_config arn ≡ none)
          × IsApart v t
    remove_credential-forgets v t e =
        let (i, k) = removed_guards v t e in
        let made = λ (cache : String → Option CachedCredentialData).
          written (update v.credentials arn none) cache (update v.cache_config arn none) in
        let same : t ≡ made (update v.cache arn none) =
          ap (λ (p : Result (Unit {0}) × Vault). p.1) (sym e ∙ remove_credential_lem s arn v i k)
          ∙ ap made (cleared v) in
        (
          ap (λ (x : Vault). x.credentials arn) same ∙ update-same v.credentials arn none,
          ap (λ (x : Vault). x.cache arn) same ∙ update-same v.cache arn none,
          ap (λ (x : Vault). x.cache_config arn) same ∙ update-same v.cache_config arn none,
          subst (IsApart v) (sym same) (written-IsApart none none v),
        )
