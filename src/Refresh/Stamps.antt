-- ===== src/Refresh/Stamps.antt =====
-- Every principal of the batch is stamped.
use aws_access_bridge.Base.{
  ℕ, zero, suc, ◌-◌, String, ◌≡◌, refl, ap, ◌∙◌, inl, inr, Option, none, some, List, [], ◌∷◌, true,
  false, ◌&&◌, ◌==◌, eq_iff, present, is_set, length, Bool-cases, Option-cases, any, if-true,
  if-false, text_or_empty, ◌++◌,
}
use aws_access_bridge.Base.Errors.{Result, ok, err, forbidden, Result-cases}
use aws_access_bridge.Base.Exec.{Exec}
use aws_access_bridge.Credential.Model.{CredentialChain, CredentialCache, AccessKeys}
use aws_access_bridge.Credential.Vault.{Vault, Settings, update}
use aws_access_bridge.Credential.Cache.{
  stamp, store_cached_credential, put_cached, update_last_cached_time,
}
use aws_access_bridge.AssumeRole.{Services, arn_at}
use aws_access_bridge.AssumeRole.World.{StsCall, World, services}
use aws_access_bridge.Refresh.{
  Counts, keep_hop, refresh_from, refresh_principal, refresh_one, refresh_batch, chain_keys,
  refresh_session,
}

module _ (s : Settings) (n : ℕ) (v : Vault) where
  put-config :
      (c : CredentialCache) (keys : List String) (token : String)
      → (put_cached s n keys c token v).1.cache_config ≡ v.cache_config
  unfolding put_cached
  put-config c [] token = refl
  put-config c (key ∷ keys) token = refl

  store-config :
      (c : CredentialCache) → (store_cached_credential s n c v).1.cache_config ≡ v.cache_config
  unfolding store_cached_credential
  store-config c = elim (Option-cases c.session_token) [
    | inl e ↦ rw e refl
    | inr (token, e) ↦ elim (Bool-cases (is_set token)) [
      | inl b ↦ rw (e, b) (put-config (record c { session_token = some token }) s.cache_keys token)
      | inr b ↦ rw (e, b) refl
    ]
  ]

module _ (s : Settings) (now : ℕ) (answer : ℕ → StsCall → Result AccessKeys)
    (seconds : String → ℕ) where
  abbrev pub sv : Services World
  sv = services s now answer seconds

  abbrev config : World → String → Option ℕ
  config w = w.vault.cache_config

  keep_hop-config :
      (arn : String) (k : AccessKeys) (count : ℕ) (w : World)
      → config (keep_hop sv arn k count w).1 ≡ config w
  unfolding keep_hop
  keep_hop-config arn k count w =
      elim (Bool-cases (present k.session_token && present k.expiration)) [
        | inr e ↦ rw (keep_hop, e) refl
        | inl e ↦
            let entry : CredentialCache = record {
              principal_arn = arn;
              access_key_id = k.access_key_id;
              secret_access_key = k.secret_access_key;
              session_token = k.session_token;
              expires_at = seconds (text_or_empty k.expiration);
            } in
            let same = store-config s w.draws w.vault entry in
            elim (Result-cases (store_cached_credential s w.draws entry w.vault).0) [
              | inl (u, f) ↦ rw (keep_hop, e, f) same
              | inr (x, f) ↦ rw (keep_hop, e, f) same
            ]
      ]

  refresh_from-config :
      (arns : List String) (i : ℕ) (k : AccessKeys) (count : ℕ) (w : World)
      → config (refresh_from sv arns i k count w).1 ≡ config w
  unfolding refresh_from
  refresh_from-config arns zero k count w = refl
  refresh_from-config arns (suc i) k count w =
      let call : StsCall = record {
        role_arn = arn_at arns (suc i);
        keys = k;
        session_name = refresh_session;
        duration = none;
      } in
      let w1 : World = record w { calls = w.calls ++ call ∷ [] } in
      elim (Result-cases (answer (length w.calls) call)) [
        | inr (x, e) ↦ rw (refresh_from, e) refl
        | inl (new, e) ↦
            let hop = keep_hop sv (arn_at arns (suc i)) new count w1 in
            let same = keep_hop-config (arn_at arns (suc i)) new count w1 in
            elim (Result-cases hop.0) [
              | inr (x, f) ↦ rw (refresh_from, e, f) same
              | inl (kept, f) ↦
                  rw (refresh_from, e, f) (refresh_from-config arns i new kept hop.1 ∙ same)
            ]
      ]

  refresh_principal-config :
      (r : Result CredentialChain) (w : World) → config (refresh_principal sv r w).1 ≡ config w
  unfolding refresh_principal
  refresh_principal-config (ok chain) w =
      let walk =
        refresh_from sv chain.principal_arns (length chain.principal_arns - 2) (chain_keys chain) 0
          w in
      let same =
        refresh_from-config chain.principal_arns (length chain.principal_arns - 2)
          (chain_keys chain) 0 w in
      elim (Result-cases walk.0) [ inl (u, f) ↦ rw f same | inr (x, f) ↦ rw f same ]
  refresh_principal-config (err e) w =
      elim e as (λ x. config (refresh_principal sv (err x) w).1 ≡ config w) [
        | forbidden m ↦ refl
        | _ ↦ refl
      ]

  module _ (get_chain : String → World → Result CredentialChain) where
    -- `updateLastCachedTime` on the store of the world.
    abbrev pub stamp_time : String → Exec World Unit
    stamp_time arn w =
        let (r, v) = update_last_cached_time now arn w.vault in (r, record w { vault = v })

    refresh_one-config :
        (arn : String) (counts : Counts) (w : World)
        → config (refresh_one sv get_chain stamp_time arn (counts, w)).1
          ≡ update (config w) arn (stamp now (config w arn))
    unfolding refresh_one update_last_cached_time
    refresh_one-config arn counts w = rw (refresh_principal-config (get_chain arn w) w) refl

    abbrev batch : List String → Counts → World → World
    batch arns counts w = (refresh_batch sv get_chain stamp_time arns (counts, w)).1

    -- Every principal of the batch that is registered is stamped with the time of the run, whatever
    -- its chain, STS and the cache did, for it or for those before it; the time of every principal
    -- outside of the batch is as it was.
    pub refresh_batch-stamp :
        (arns : List String) (counts : Counts) (w : World) (arn : String)
        → ((t : ℕ)
            → any (λ a. a == arn) arns ≡ true
            → config w arn ≡ some t
            → config (batch arns counts w) arn ≡ some now)
          × (any (λ a. a == arn) arns ≡ false → config (batch arns counts w) arn ≡ config w arn)
    unfolding refresh_batch
    refresh_batch-stamp [] counts w arn = (λ t m e. cc, λ m. refl)
    refresh_batch-stamp (a ∷ arns) counts w arn =
        let one = refresh_one sv get_chain stamp_time a (counts, w) in
        let here = ap (λ (f : String → Option ℕ). f arn) (refresh_one-config a counts w) in
        let (inside, outside) = refresh_batch-stamp arns one.0 one.1 arn in
        elim (Bool-cases (a == arn)) [
          | inr p ↦
              let same : config one.1 arn ≡ config w arn = here ∙ if-false (a == arn) _ _ p in
              (λ t m e. inside t (rw p at m) (same ∙ e), λ m. outside (rw p at m) ∙ same)
          | inl p ↦
              let at_arn : a ≡ arn = (eq_iff a arn).0 p in
              let stamped : config one.1 arn ≡ stamp now (config w a) =
                here ∙ if-true (a == arn) _ _ p in
              (
                λ t m e.
                    let done : config one.1 arn ≡ some now =
                      stamped ∙ ap (stamp now) (ap (config w) at_arn ∙ e) in
                    elim (Bool-cases (any (λ b. b == arn) arns)) [
                      | inl more ↦ inside now more done
                      | inr none_left ↦ outside none_left ∙ done
                    ],
                λ m. cc (rw p at m),
              )
        ]
