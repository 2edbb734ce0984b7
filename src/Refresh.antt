-- ===== src/Refresh.antt =====
-- apps/background/src/scheduled/CredentialCacheRefreshTask.ts: the batch that keeps the intermediate
-- principals of the registered chains in the cache.
pub mod Stamps
mod Tests
use aws_access_bridge.Base.{
  ℕ, zero, suc, ◌+◌, ◌-◌, String, Option, none, some, List, [], ◌∷◌, Bool, true, false, ◌&&◌,
  present, text_or_empty, length, if◌then◌else◌,
}
use aws_access_bridge.Base.Errors.{ServiceError, Result, ok, err, forbidden}
use aws_access_bridge.Base.Exec.{Exec, pure, throw, ◌>>=◌}
use aws_access_bridge.Credential.Model.{CredentialChain, AccessKeys}
use aws_access_bridge.AssumeRole.{Services, arn_at}

abbrev pub refresh_session : String
refresh_session = "AccessBridge-CredentialCacheRefresh"

-- The keys of the chain, its session token included.
abbrev pub chain_keys : CredentialChain → AccessKeys
chain_keys chain = record {
  access_key_id = chain.access_key_id;
  secret_access_key = chain.secret_access_key;
  session_token = chain.session_token;
  expiration = none;
}

-- `{ itemsProcessed, itemsFailed }` and the number of skipped principals.
pub record Counts : Type 0 where
  pub refreshed : ℕ
  pub failed : ℕ
  pub skipped : ℕ

module _ {S : Type 0} (sv : Services S) where
  unfoldable pub keep_hop : String → AccessKeys → ℕ → Exec S ℕ
  keep_hop role_arn k count =
      if present k.session_token && present k.expiration
      then (sv.store_cached (record {
        principal_arn = role_arn;
        access_key_id = k.access_key_id;
        secret_access_key = k.secret_access_key;
        session_token = k.session_token;
        expires_at = sv.seconds_of (text_or_empty k.expiration);
      })
          >>= λ done. pure (count + 1))
      else pure count

  -- The loop from index `i` down to the first intermediate principal, at index 1.
  unfoldable pub refresh_from : List String → ℕ → AccessKeys → ℕ → Exec S ℕ
  refresh_from arns zero credential count = pure count
  refresh_from arns (suc i) credential count =
      sv.assume_role (arn_at arns (suc i)) credential refresh_session none >>= λ assumed.
      keep_hop (arn_at arns (suc i)) assumed count >>= λ kept. refresh_from arns i assumed kept

  -- A chain that is refused as forbidden has nothing to keep warm: `none`.
  unfoldable pub refresh_principal : Result CredentialChain → Exec S (Option ℕ)
  refresh_principal (ok chain) =
      refresh_from chain.principal_arns (length chain.principal_arns - 2) (chain_keys chain) 0
      >>= λ count. pure (some count)
  refresh_principal (err (forbidden m)) = pure none
  refresh_principal (err e) = throw e

  abbrev pub tally : Result (Option ℕ) → Counts → Counts
  tally (ok none) c = record c { skipped = c.skipped + 1 }
  tally (ok (some n)) c = record c { refreshed = c.refreshed + n }
  tally (err e) c = record c { failed = c.failed + 1 }

  -- A stamp that throws counts once for a principal that had not failed yet.
  abbrev tally_stamp : Result (Option ℕ) → Result (Unit {0}) → Counts → Counts
  tally_stamp (err e) q c = c
  tally_stamp (ok n) (ok u) c = c
  tally_stamp (ok n) (err e) c = record c { failed = c.failed + 1 }

  module _ (get_credential_chain : String → S → Result CredentialChain)
      (update_last_cached_time : String → Exec S Unit) where
    -- One round of the batch: the refresh, isolated, and then the stamp, whatever came before.
    unfoldable pub refresh_one : String → Counts × S → Counts × S
    refresh_one arn (counts, w) =
        let (r, w1) = refresh_principal (get_credential_chain arn w) w in
        let (q, w2) = update_last_cached_time arn w1 in (tally_stamp r q (tally r counts), w2)

    unfoldable pub refresh_batch : List String → Counts × S → Counts × S
    refresh_batch [] state = state
    refresh_batch (arn ∷ arns) state = refresh_batch arns (refresh_one arn state)
