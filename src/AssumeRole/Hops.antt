-- ===== src/AssumeRole/Hops.antt =====
-- What the walk down the chain asks of STS and what it leaves in the cache.
use mathlib.Core.List.{append-nil, append_assoc}
use Prim.Native.String
use aws_access_bridge.Base.{
  ℕ, zero, suc, ◌+◌, ◌<◌, ◌≤◌, leb→le, and-true, String, ◌≡◌, ◌≢◌, refl, sym, ap, ◌∙◌, Option, none,
  some, List, [], ◌∷◌, ◌++◌, Bool-cases, Option-cases, inl, inr, ◌&&◌, leb, length, present, arith,
  is_set, subst, length-append,
}
use aws_access_bridge.Base.Errors.{Result, ok, Result-cases}
use aws_access_bridge.Credential.Model.{CredentialCache, AccessKeys}
use aws_access_bridge.Credential.Vault.{Vault, Settings, update-other}
use aws_access_bridge.Credential.Cache.{store_cached_credential, put_cached, cached_data}
use aws_access_bridge.AssumeRole.{
  Services, arn_at, session_at, duration_at, keep_intermediate, assume_role_chain,
}
use aws_access_bridge.AssumeRole.World.{StsCall, World, services}

module _ (s : Settings) (n : ℕ) (v : Vault) (arn : String) where
  put-other :
      (c : CredentialCache) (keys : List String) (token : String)
      → arn ≢ c.principal_arn
      → (put_cached s n keys c token v).1.cache arn ≡ v.cache arn
  unfolding put_cached
  put-other c [] token h = refl
  put-other c (key ∷ keys) token h =
      update-other v.cache c.principal_arn (some (cached_data s n key c token)) arn h

  store-other :
      (c : CredentialCache)
      → arn ≢ c.principal_arn
      → (store_cached_credential s n c v).1.cache arn ≡ v.cache arn
  unfolding store_cached_credential
  store-other c h = elim (Option-cases c.session_token) [
    | inl e ↦ rw e refl
    | inr (token, e) ↦ elim (Bool-cases (is_set token)) [
      | inl b ↦ rw (e, b) (put-other (record c { session_token = some token }) s.cache_keys token h)
      | inr b ↦ rw (e, b) refl
    ]
  ]

module _ (s : Settings) (now : ℕ) (answer : ℕ → StsCall → Result AccessKeys) (seconds : String → ℕ)
    (arns : List String) (user_id : String) (duration : Option ℕ) where
  abbrev pub sv : Services World
  sv = services s now answer seconds

  abbrev call_at : ℕ → AccessKeys → StsCall
  call_at i k = record {
    role_arn = arn_at arns i;
    keys = k;
    session_name = session_at i user_id;
    duration = duration_at i duration;
  }

  -- The call for an intermediate role, and the call for the target.
  abbrev pub shared_call : String → AccessKeys → StsCall
  shared_call arn k = record {
    role_arn = arn;
    keys = k;
    session_name = "AccessBridge-Intermediate";
    duration = none;
  }

  abbrev pub own_call : String → AccessKeys → StsCall
  own_call arn k = record {
    role_arn = arn;
    keys = k;
    session_name = String.◌++◌ "AccessBridge-" user_id;
    duration = duration;
  }

  -- The principal at an index of the chain, counted from the target.
  abbrev pub nth : List String → ℕ → String
  nth [] i = "undefined"
  nth (a ∷ names) zero = a
  nth (a ∷ names) (suc i) = nth names i

  arn_at-nth : (names : List String) (i : ℕ) → arn_at names i ≡ nth names i
  arn_at-nth [] i = refl
  arn_at-nth (a ∷ names) zero = refl
  arn_at-nth (a ∷ names) (suc i) = arn_at-nth names i

  -- A walk from the role at `i - 1` down to the target: each call is made with the keys that the
  -- call before it answered.
  pub data Hops : ℕ → ℕ → AccessKeys → List StsCall → AccessKeys → Type 0 where
    arrived : {m : ℕ} {k : AccessKeys} → Hops m 0 k [] k
    to_intermediate :
        {m i : ℕ} {k new result : AccessKeys} {calls : List StsCall}
        → answer m (shared_call (nth arns (suc i)) k) ≡ ok new
        → Hops (m + 1) (suc i) new calls result
        → Hops m (suc (suc i)) k (shared_call (nth arns (suc i)) k ∷ calls) result
    to_target :
        {m : ℕ} {k new result : AccessKeys} {calls : List StsCall}
        → answer m (own_call (nth arns 0) k) ≡ ok new
        → Hops (m + 1) 0 new calls result
        → Hops m 1 k (own_call (nth arns 0) k ∷ calls) result

  made_call : ℕ → AccessKeys → StsCall
  made_call zero k = own_call (nth arns 0) k
  made_call (suc i) k = shared_call (nth arns (suc i)) k

  call_at-made : (i : ℕ) (k : AccessKeys) → call_at i k ≡ made_call i k
  unfolding session_at duration_at made_call
  call_at-made zero k = ap (λ arn. own_call arn k) (arn_at-nth arns 0)
  call_at-made (suc i) k = ap (λ arn. shared_call arn k) (arn_at-nth arns (suc i))

  made-Hops :
      (m i : ℕ) (k new result : AccessKeys) (calls : List StsCall)
      → answer m (made_call i k) ≡ ok new
      → Hops (m + 1) i new calls result
      → Hops m (suc i) k (made_call i k ∷ calls) result
  unfolding made_call
  made-Hops m zero k new result calls e h = to_target e h
  made-Hops m (suc i) k new result calls e h = to_intermediate e h

  hop :
      {m i : ℕ} {k new result : AccessKeys} {calls : List StsCall}
      → answer m (call_at i k) ≡ ok new
      → Hops (m + 1) i new calls result
      → Hops m (suc i) k (call_at i k ∷ calls) result
  hop {m} {i} {k} {new} {result} {calls} e h =
      subst (λ c. answer m c ≡ ok new → Hops m (suc i) k (c ∷ calls) result)
        (sym (call_at-made i k)) (λ q. made-Hops m i k new result calls q h) e

  module _ (i : ℕ) (arn : String) (k : AccessKeys) (w : World) where
    keep-calls : (keep_intermediate sv i arn k w).1.calls ≡ w.calls
    unfolding keep_intermediate
    keep-calls = elim (Bool-cases (leb 1 i && present k.expiration && present k.session_token)) [
      | inl e ↦ rw e refl
      | inr e ↦ rw e refl
    ]

    keep-cache :
        (other : String)
        → (1 ≤ i → other ≢ arn)
        → (keep_intermediate sv i arn k w).1.vault.cache other ≡ w.vault.cache other
    unfolding keep_intermediate
    keep-cache other h =
        elim (Bool-cases (leb 1 i && present k.expiration && present k.session_token)) [
          | inl e ↦ rw e (
              store-other s w.draws w.vault other _
                (h (leb→le 1 i (and-true _ _ (and-true _ _ e).0).0)))
          | inr e ↦ rw e refl
        ]

  -- Where the walk returns, the calls that it made of STS are those of the roles above the start,
  -- in order down to the target, each with the keys that the one before it answered, the
  -- intermediate ones under the shared session name and the target's under the user's own and with
  -- the configured duration; the result is what STS answered last, or the keys of the start where
  -- no role is left.
  pub assume_role_chain-Hops :
      (i : ℕ) (k result : AccessKeys) (w : World)
      → (assume_role_chain sv arns i k user_id duration w).0 ≡ ok result
      → (calls : List StsCall) × Hops (length w.calls) i k calls result
        × ((assume_role_chain sv arns i k user_id duration w).1.calls ≡ w.calls ++ calls)
  unfolding assume_role_chain
  assume_role_chain-Hops zero k result w e =
      ([], subst (λ r. Hops (length w.calls) 0 k [] r) (cc e) arrived, sym (append-nil w.calls))
  assume_role_chain-Hops (suc i) k result w e =
      elim (Result-cases (answer (length w.calls) (call_at i k))) [
        | inr (x, q) ↦ cc (rw q at e)
        | inl (new, q) ↦
            let w' : World = record w { calls = w.calls ++ call_at i k ∷ [] } in
            let kept = keep_intermediate sv i (arn_at arns i) new w' in
            let same = keep-calls i (arn_at arns i) new w' in
            elim (Result-cases kept.0) [
              | inr (x, f) ↦ cc (rw (q, f) at e)
              | inl (done, f) ↦
                  let (calls, hops, made) =
                    assume_role_chain-Hops i new result kept.1 (rw (q, f) at e) in
                  (
                    call_at i k ∷ calls,
                    hop q (
                        subst (λ m. Hops m i new calls result)
                          (ap length same ∙ length-append w.calls (call_at i k ∷ [])) hops),
                    rw (q, f)
                        (made
                          ∙ ap (λ cs. cs ++ calls) same
                          ∙ append_assoc w.calls (call_at i k ∷ []) calls),
                  )
            ]
      ]

  -- Whether it returns or throws, the walk never writes the target's keys to the cache, if the chain
  -- names the target once.
  pub assume_role_chain-target :
      (i : ℕ) (k : AccessKeys) (w : World)
      → ((j : ℕ) → 1 ≤ j → j < i → arn_at arns 0 ≢ arn_at arns j)
      → (assume_role_chain sv arns i k user_id duration w).1.vault.cache (arn_at arns 0)
        ≡ w.vault.cache (arn_at arns 0)
  unfolding assume_role_chain
  assume_role_chain-target zero k w h = refl
  assume_role_chain-target (suc i) k w h =
      elim (Result-cases (answer (length w.calls) (call_at i k))) [
        | inr (x, e) ↦ rw e refl
        | inl (new, e) ↦
            let w' : World = record w { calls = w.calls ++ call_at i k ∷ [] } in
            let kept =
              keep-cache i (arn_at arns i) new w' (arn_at arns 0) (λ p. h i p (omega arith)) in
            elim (Result-cases (keep_intermediate sv i (arn_at arns i) new w').0) [
              | inr (x, f) ↦ rw (e, f) kept
              | inl (done, f) ↦
                  rw (e, f)
                    (assume_role_chain-target i new
                        (keep_intermediate sv i (arn_at arns i) new w').1
                        (λ j p q. h j p (omega arith))
                      ∙ kept)
            ]
      ]
