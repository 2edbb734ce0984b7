-- ===== src/Refresh/Tests.antt =====
-- A batch of two, of which the first has no chain.
use aws_access_bridge.Base.{ℕ, ◌≡◌, String, some, [], ◌∷◌, any, true, false, ◌==◌, if◌then◌else◌}
use aws_access_bridge.Base.Errors.{Result, ok, err, not_found}
use aws_access_bridge.Credential.Model.{CredentialChain, AccessKeys}
use aws_access_bridge.Credential.Tests.Data.{
  target_arn, middle_arn, chain_three, empty_vault, settings,
}
use aws_access_bridge.AssumeRole.World.{StsCall, World}
use aws_access_bridge.Refresh.{Counts, refresh_batch}
use aws_access_bridge.Refresh.Stamps.{sv, stamp_time, refresh_batch-stamp}

abbrev refuse : ℕ → StsCall → Result AccessKeys
refuse n call = err (not_found "no role")

abbrev seconds : String → ℕ
seconds s = 0

abbrev chains : String → World → Result CredentialChain
chains arn w = if arn == target_arn then ok chain_three else err (not_found "no row")

abbrev start : World
start = record {
  vault = record empty_vault { cache_config = λ arn. some 0 };
  calls = [];
  draws = 0;
}

abbrev zero_counts : Counts
zero_counts = record { refreshed = 0; failed = 0; skipped = 0 }

refresh_batch-stamp_example :
    let w' =
      (refresh_batch
        (sv settings 500 refuse seconds)
        chains
        (stamp_time settings 500 refuse seconds chains)
        (middle_arn ∷ target_arn ∷ [])
        (zero_counts, start)).1 in
    ((t : ℕ)
      → any (λ a. a == target_arn) (middle_arn ∷ target_arn ∷ []) ≡ true
      → some 0 ≡ some t
      → w'.vault.cache_config target_arn ≡ some 500)
    × (any (λ a. a == target_arn) (middle_arn ∷ target_arn ∷ []) ≡ false
        → w'.vault.cache_config target_arn ≡ some 0)
refresh_batch-stamp_example =
    refresh_batch-stamp settings 500 refuse seconds chains (middle_arn ∷ target_arn ∷ [])
      zero_counts start target_arn
