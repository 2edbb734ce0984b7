-- ===== src/Credential/Tests/Writes.antt =====
-- Writes to an empty store, read back.
use aws_access_bridge.Credential.Chain.Cold.{get_credential_chain}
use aws_access_bridge.Credential.Store.Chains.{related, get_credential_chain-related}
use aws_access_bridge.Base.{ℕ, true, ◌≡◌, refl, none, some, [], ◌∷◌, differ, arith}
use aws_access_bridge.Base.Errors.{ok}
use aws_access_bridge.Arn.{is_principal_arn}
use aws_access_bridge.Crypto.Tests.{labelled-IsAuthentic}
use aws_access_bridge.Credential.Vault.{CredentialRow, Vault, update}
use aws_access_bridge.Credential.Table
use aws_access_bridge.Credential.Table.{get_credential}
use aws_access_bridge.Credential.Cache.{create_cache_config, delete_cache_config}
use aws_access_bridge.Credential.Store.{
  store_credential_relationship, remove_credential, invalidate_cached_credential,
}
use aws_access_bridge.Credential.Store.Forgetting.{
  IsApart, store_credential_relationship-forgets, remove_credential-forgets,
}
use aws_access_bridge.Credential.Tests.Data.{
  target_arn, middle_arn, base_arn, empty_vault, settings,
}

-- The middle role with a time of its last refresh.
abbrev refreshed_vault : Vault
refreshed_vault = record empty_vault {
  cache_config = update empty_vault.cache_config middle_arn (some 5);
}

abbrev with_relation : Vault
with_relation = (store_credential_relationship settings middle_arn base_arn refreshed_vault).1

relates :
    store_credential_relationship settings middle_arn base_arn refreshed_vault
    ≡ (ok tt, with_relation)
unfolding store_credential_relationship is_principal_arn Table.store_credential_relationship
    invalidate_cached_credential create_cache_config
relates = refl

store_credential_relationship-forgets_example :
    (is_principal_arn middle_arn ≡ true)
    × (is_principal_arn base_arn ≡ true)
    × (with_relation.cache middle_arn ≡ none)
    × ((row : CredentialRow)
        → refreshed_vault.credentials middle_arn ≡ some row
        → with_relation.credentials middle_arn ≡ some (record row { assumed_by = some base_arn }))
    × (refreshed_vault.cache_config middle_arn ≡ none
        → with_relation.cache_config middle_arn ≡ some 0)
    × ((time : ℕ)
        → refreshed_vault.cache_config middle_arn ≡ some time
        → with_relation.cache_config middle_arn ≡ some time)
    × IsApart settings middle_arn refreshed_vault with_relation
store_credential_relationship-forgets_example =
    store_credential_relationship-forgets settings middle_arn refl base_arn refreshed_vault
      with_relation relates

abbrev without_middle : Vault
without_middle = (remove_credential settings middle_arn with_relation).1

removes : remove_credential settings middle_arn with_relation ≡ (ok tt, without_middle)
unfolding remove_credential is_principal_arn Table.remove_credential invalidate_cached_credential
    delete_cache_config
removes = refl

remove_credential-forgets_example :
    (without_middle.credentials middle_arn ≡ none)
    × (without_middle.cache middle_arn ≡ none)
    × (without_middle.cache_config middle_arn ≡ none)
    × IsApart settings middle_arn with_relation without_middle
remove_credential-forgets_example =
    remove_credential-forgets settings middle_arn refl with_relation without_middle removes

get_credential_chain-related_example :
    get_credential_chain 3
      (get_credential settings (
        related settings labelled-IsAuthentic "k1" [] refl 0 target_arn base_arn "id" "secret" none
          empty_vault))
      target_arn
    ≡ ok (record {
      principal_arns = target_arn ∷ base_arn ∷ [];
      access_key_id = "id";
      secret_access_key = "secret";
      session_token = none;
    })
unfolding is_principal_arn
get_credential_chain-related_example =
    get_credential_chain-related settings labelled-IsAuthentic "k1" [] refl 0 target_arn base_arn
      "id" "secret" none empty_vault refl refl refl refl tt refl refl
      (differ target_arn base_arn refl) refl refl (omega arith)
