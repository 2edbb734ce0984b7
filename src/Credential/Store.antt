-- ===== src/Credential/Store.antt =====
-- packages/backend-services/src/credential/CredentialStoreService.ts: the writes to the credential
-- tables, with what they do to the cache and to the registrations for the scheduled refresh.
pub mod Laws
pub mod Relations
pub mod Chains
pub mod Forgetting
use aws_access_bridge.Base.{
  ℕ, String, Option, none, some, Bool, true, false, not, ◌&&◌, ◌||◌, is_set, present, if◌then◌else◌,
}
use aws_access_bridge.Base.Errors.{Result, ok, err, ServiceError, bad_request, internal_server}
use aws_access_bridge.Base.Exec.{Exec, pure, throw, throw_if, ◌>>◌}
use aws_access_bridge.Arn.{is_principal_arn}
use aws_access_bridge.Credential.Vault.{Vault, Settings}
use aws_access_bridge.Credential.Table
use aws_access_bridge.Credential.Cache.{invalidate, create_cache_config, delete_cache_config}

abbrev pub missing_fields : String
missing_fields = "Missing required fields."

abbrev pub bad_principal : String
bad_principal = "Invalid principal ARN format."

abbrev pub bad_assumed_by : String
bad_assumed_by = "Invalid assumedBy ARN format."

-- `invalidateCachedCredential`: no namespace, no cache to invalidate.
unfoldable pub invalidate_cached_credential : Settings → String → Exec Vault Unit
unfolding invalidate
invalidate_cached_credential s arn v = if s.has_kv then invalidate arn v else (ok tt, v)

unfoldable pub store_credential :
    Settings → ℕ → String → String → String → Option String → Exec Vault Unit
store_credential s n principal_arn access_key_id secret_access_key session_token =
    throw_if
      (not (is_set principal_arn) || not (is_set access_key_id) || not (is_set secret_access_key))
      (bad_request missing_fields)
    >> Table.store_credential s n principal_arn access_key_id secret_access_key session_token

unfoldable pub store_credential_relationship : Settings → String → String → Exec Vault Unit
store_credential_relationship s principal_arn assumed_by =
    throw_if (not (is_set principal_arn) || not (is_set assumed_by)) (bad_request missing_fields)
    >> throw_if (not (is_principal_arn principal_arn)) (bad_request bad_principal)
    >> throw_if (not (is_principal_arn assumed_by)) (bad_request bad_assumed_by)
    >> Table.store_credential_relationship principal_arn assumed_by
    >> invalidate_cached_credential s principal_arn
    >> create_cache_config principal_arn

unfoldable pub remove_credential : Settings → String → Exec Vault Unit
remove_credential s principal_arn =
    throw_if (not (is_set principal_arn)) (bad_request missing_fields)
    >> throw_if (not (is_principal_arn principal_arn)) (bad_request bad_principal)
    >> Table.remove_credential principal_arn
    >> invalidate_cached_credential s principal_arn
    >> delete_cache_config principal_arn
