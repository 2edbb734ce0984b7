-- ===== src/Credential/Tests/Hops.antt =====
-- The walkers on the chain of three, where the target refuses.
use aws_access_bridge.Base.{◌≡◌, refl, String, List, [], ◌∷◌, none, false, ◌==◌, if◌then◌else◌}
use aws_access_bridge.Base.Errors.{ServiceError, Result, ok, err, forbidden}
use aws_access_bridge.Credential.Model.{AccessKeys}
use aws_access_bridge.Credential.Walker.{
  ChainTestStep, walk_to_leaf, walk_test, test_walk, test_hop, base_steps,
}
use aws_access_bridge.Credential.Walker.Report.{succeeds, step_of, Reports, walk_test-walk_to_leaf}
use aws_access_bridge.Credential.Tests.Data.{target_arn, middle_arn, base_arn, chain_three}

abbrev refuse_target : String → AccessKeys → String → Result AccessKeys
refuse_target arn k session = if arn == target_arn then err (forbidden "no") else ok k

abbrev text_of : ServiceError → String
text_of e = "no"

reported : walk_test refuse_target text_of "test" chain_three ≡ (
  false,
  record { arn = base_arn; status = "ok (base credentials)" }
      ∷ record { arn = middle_arn; status = "ok" }
      ∷ record { arn = target_arn; status = "failed: no" }
      ∷ [],
)
unfolding walk_test test_walk test_hop base_steps
reported = refl

walk_test-walk_to_leaf_example :
    let result = walk_to_leaf refuse_target text_of "test" chain_three in
    (steps : List ChainTestStep) × (walk_test refuse_target text_of "test" chain_three
      ≡ (succeeds result, step_of base_arn "ok (base credentials)" ∷ steps))
    × Reports refuse_target text_of "test"
        (middle_arn ∷ target_arn ∷ [])
        (record {
          access_key_id = chain_three.access_key_id;
          secret_access_key = chain_three.secret_access_key;
          session_token = chain_three.session_token;
          expiration = none;
        })
        steps
        result
walk_test-walk_to_leaf_example =
    walk_test-walk_to_leaf refuse_target text_of "test" chain_three (target_arn ∷ middle_arn ∷ [])
      base_arn refl refl
