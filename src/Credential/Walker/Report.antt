-- ===== src/Credential/Walker/Report.antt =====
-- The test of a chain reports what the walk for its keys does.
use Prim.Native.String
use mathlib.Core.List.{append_assoc, append-nil}
use aws_access_bridge.Base.{
  ℕ, zero, suc, ◌-◌, ◌≡◌, refl, sym, ap, String, none, some, List, [], ◌∷◌, ◌++◌, Bool, true, false,
  not, length, length-append, is_set, arith, subst, if-true, ◌∙◌, inl, inr, if◌then◌else◌,
}
use aws_access_bridge.Base.Errors.{ServiceError, Result, ok, err, Result-cases}
use aws_access_bridge.Credential.Model.{CredentialChain, AccessKeys}
use aws_access_bridge.Credential.Walker.{
  ChainTestStep, TestState, keys_of_chain, arn_at, leaf_walk, walk_to_leaf, test_hop, test_walk,
  last_arn, base_steps, walk_test,
}

-- What a result says of the test: whether there is one.
abbrev pub succeeds : Result AccessKeys → Bool
succeeds (ok k) = true
succeeds (err e) = false

abbrev pub step_of : String → String → ChainTestStep
step_of arn status = record { arn = arn; status = status }

module _ (assume : String → AccessKeys → String → Result AccessKeys)
    (message : ServiceError → String) (session_name : String) where
  -- The roles above the keys, the one next to the keys first, and the keys of the last of them: a step
  -- for each role that is assumed with the keys of the one before it, and a step for the first that
  -- fails, which is the last step.
  pub data Reports
      : List String → AccessKeys → List ChainTestStep → Result AccessKeys → Type 0 where
    reached : {keys : AccessKeys} → Reports [] keys [] (ok keys)
    passed :
        {arn : String} {arns : List String} {keys new : AccessKeys} {steps : List ChainTestStep}
        {result : Result AccessKeys}
        → assume arn keys session_name ≡ ok new
        → Reports arns new steps result
        → Reports (arn ∷ arns) keys (step_of arn "ok" ∷ steps) result
    stopped :
        {arn : String} {arns : List String} {keys : AccessKeys} {e : ServiceError}
        → assume arn keys session_name ≡ err e
        → Reports (arn ∷ arns) keys (step_of arn (String.◌++◌ "failed: " (message e)) ∷ []) (err e)

  abbrev at_state : Bool → List ChainTestStep → AccessKeys → TestState
  at_state failed steps keys = record { steps = steps; failed = failed; keys = keys }

  module _ (arns : List String) where
    -- The first roles of the chain, from the one next to the base.
    abbrev upward : ℕ → List String
    upward zero = []
    upward (suc i) = arn_at arns i ∷ upward i

    -- After a failure the walk reports nothing more.
    test_walk-failed :
        (i : ℕ) (steps : List ChainTestStep) (keys : AccessKeys)
        → test_walk assume message session_name arns i (at_state true steps keys)
          ≡ at_state true steps keys
    unfolding test_walk test_hop
    test_walk-failed zero steps keys = refl
    test_walk-failed (suc i) steps keys = test_walk-failed i steps keys

    test_walk-Reports :
        (i : ℕ) (steps : List ChainTestStep) (keys : AccessKeys)
        → let t = test_walk assume message session_name arns i (at_state false steps keys) in
          let result = leaf_walk assume message session_name arns i keys in
          (not t.failed ≡ succeeds result)
          × (more : List ChainTestStep) × (t.steps ≡ steps ++ more)
          × Reports (upward i) keys more result
    unfolding test_walk test_hop leaf_walk
    test_walk-Reports zero steps keys = (refl, [], sym (append-nil steps), reached)
    test_walk-Reports (suc i) steps keys =
        elim (Result-cases (assume (arn_at arns i) keys session_name)) [
          | inl (new, e) ↦
              let step = step_of (arn_at arns i) "ok" in
              let (same, more, made, report) = test_walk-Reports i (steps ++ step ∷ []) new in
              rw (test_walk, test_hop, leaf_walk, e)
                (same, step ∷ more, made ∙ append_assoc steps (step ∷ []) more, passed e report)
          | inr (x, e) ↦
              let step = step_of (arn_at arns i) (String.◌++◌ "failed: " (message x)) in
              rw (test_walk, test_hop, leaf_walk, e, test_walk-failed i (steps ++ step ∷ []) keys)
                (refl, step ∷ [], refl, stopped e)
        ]

  upward-cons :
      (x : String) (xs : List String) (i : ℕ) → upward (x ∷ xs) (suc i) ≡ upward xs i ++ x ∷ []
  upward-cons x xs zero = refl
  upward-cons x xs (suc i) = ap (λ l. arn_at xs i ∷ l) (upward-cons x xs i)

  -- From the one next to the base to the target.
  abbrev pub backward : List String → List String
  backward [] = []
  backward (role ∷ roles) = backward roles ++ role ∷ []

  upward-backward :
      (roles : List String) (base : String)
      → upward (roles ++ base ∷ []) (length roles) ≡ backward roles
  upward-backward [] base = refl
  upward-backward (role ∷ roles) base =
      upward-cons role (roles ++ base ∷ []) (length roles)
      ∙ ap (λ l. l ++ role ∷ []) (upward-backward roles base)

  last_arn-base :
      (roles : List String) (base : String)
      → last_arn assume message session_name (roles ++ base ∷ []) ≡ some base
  last_arn-base [] base = refl
  last_arn-base (role ∷ []) base = refl
  last_arn-base (role ∷ next ∷ roles) base = last_arn-base (next ∷ roles) base

  base_steps-base :
      (roles : List String) (base : String)
      → is_set base ≡ true
      → base_steps assume message session_name (roles ++ base ∷ [])
        ≡ step_of base "ok (base credentials)" ∷ []
  unfolding base_steps
  base_steps-base roles base h =
      ap
        (λ last. elim last [
          | none ↦ []
          | some arn ↦ if is_set arn then step_of arn "ok (base credentials)" ∷ [] else []
        ])
        (last_arn-base roles base)
      ∙ if-true _ _ _ h

  below_base :
      (roles : List String) (base : String) → length (roles ++ base ∷ []) - 1 ≡ length roles
  below_base roles base = let total = length-append roles (base ∷ []) in omega arith

  -- The walk for the target's keys assumes the roles of a chain from the one next to the base down to
  -- the target, each with the keys of the one before it, the first with those of the chain, and ends
  -- at the first that fails. The test of the chain reports success exactly where that walk returns
  -- keys; its steps are one for the base, one for each role that the walk assumes, and one that
  -- names the failure for the role at which the walk fails, if it does.
  pub walk_test-walk_to_leaf :
      (chain : CredentialChain) (roles : List String) (base : String)
      → chain.principal_arns ≡ roles ++ base ∷ []
      → is_set base ≡ true
      → let result = walk_to_leaf assume message session_name chain in
        (steps : List ChainTestStep) × (walk_test assume message session_name chain
          ≡ (succeeds result, step_of base "ok (base credentials)" ∷ steps))
        × Reports
            (backward roles)
            (record {
              access_key_id = chain.access_key_id;
              secret_access_key = chain.secret_access_key;
              session_token = chain.session_token;
              expiration = none;
            })
            steps
            result
  unfolding walk_test walk_to_leaf
  walk_test-walk_to_leaf chain roles base e h =
      let first : List ChainTestStep = step_of base "ok (base credentials)" ∷ [] in
      let keys = keys_of_chain chain in
      let arns = roles ++ base ∷ [] in
      let t : TestState =
        test_walk assume message session_name arns (length roles) (at_state false first keys) in
      let (same, steps, made, report) = test_walk-Reports arns (length roles) first keys in
      rw (e, below_base roles base, base_steps-base roles base h)
        (
          steps,
          ap (λ b. (b, t.steps)) same
              ∙ ap
                  (λ l.
                    (succeeds (leaf_walk assume message session_name arns (length roles) keys), l))
                  made,
          subst
              (λ l.
                Reports l keys steps
                  (leaf_walk assume message session_name arns (length roles) keys))
              (upward-backward roles base) report,
        )
