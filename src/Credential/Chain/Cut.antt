-- ===== src/Credential/Chain/Cut.antt =====
-- Where the cold walk succeeds the warm one does too, with the same chain or a cached cut of it.
use mathlib.Core.List.{append_assoc, map-append}
use aws_access_bridge.Base.{
  ℕ, zero, suc, ◌+◌, ◌≤◌, ◌<◌, String, ◌≡◌, refl, ◌∙◌, ap, ◌⊎◌, inl, inr, Option, none, some, List,
  [], ◌∷◌, ◌++◌, Bool, true, false, not, ◌&&◌, ◌==◌, arith, leb, lt→leb, length, present, if-false,
  and-false, eq_iff,
}
use aws_access_bridge.Base.Errors.{Result, ok}
use aws_access_bridge.Base.Exec.{Exec}
use aws_access_bridge.Credential.Model.{Credential, CredentialChain, CredentialCache}
use aws_access_bridge.Credential.Chain.{step_to}
use aws_access_bridge.Credential.Chain.Cold.{cold_end, get_credential_chain}
use aws_access_bridge.Credential.Chain.Warm.{
  cached_chain, warm_end, consult, warm_loop, get_chain_to_first_cached,
}
use aws_access_bridge.Credential.Chain.Linked.{Follows, last_row, step_to-eq}
use aws_access_bridge.Credential.Chain.Depth.{cold_loop_sound, cold_end-arns}
use aws_access_bridge.Credential.Chain.Agreement.{arns_of, arns_of-snoc, warm_end-eq, IsKeyed}

module _ {Kv : Type 0} (limit : ℕ) (read : String → Result Credential)
    (cached : String → Exec Kv (Option CredentialCache)) where
  -- What the warm walk may return in place of `chain`: a prefix of its principals, with keys that
  -- the cache holds for the last of them.
  pub record IsCut (chain cut : CredentialChain) : Type 0 where
    pub before : List String
    pub hit : String
    pub after : List String
    pub entry : CredentialCache
    pub kv : Kv
    pub parts : chain.principal_arns ≡ before ++ hit ∷ after
    pub cut_at : cut ≡ cached_chain (before ++ hit ∷ []) entry
    pub intermediate : 1 ≤ length before
    pub held : (cached hit kv).0 ≡ ok (some entry)

  -- The cache never throws.
  abbrev pub Answers : Type 0
  Answers = (arn : String) (kv : Kv) → (o : Option CredentialCache) × ((cached arn kv).0 ≡ ok o)

  consult-cases :
      Answers
      → (b : Bool) (arn : String) (kv : Kv)
      → ((consult limit read cached b arn kv).0 ≡ ok none)
        ⊎ ((entry : CredentialCache) × (b ≡ true)
            × ((consult limit read cached b arn kv).0 ≡ ok (some entry))
            × ((cached arn kv).0 ≡ ok (some entry)))
  unfolding consult
  consult-cases a false arn kv = inl refl
  consult-cases a true arn kv = go (a arn kv).0 (a arn kv).1
    where
      go :
          (o : Option CredentialCache)
          → (cached arn kv).0 ≡ ok o
          → ((cached arn kv).0 ≡ ok none)
            ⊎ ((entry : CredentialCache) × (◌≡◌ {A = Bool} true true)
                × ((cached arn kv).0 ≡ ok (some entry))
                × ((cached arn kv).0 ≡ ok (some entry)))
      go none e = inl e
      go (some c) e = inr (c, refl, e, e)

  -- One round of the loop, by what the cache and the row say.
  module _ (fuel hops : ℕ) (arn at : String) (before : List String) (kv : Kv) where
    abbrev consulted : Result (Option CredentialCache) × Kv
    consulted = consult limit read cached (not (at == arn) && not (leb limit (hops + 1))) at kv

    round-hit :
        (entry : CredentialCache)
        → consulted.0 ≡ ok (some entry)
        → (warm_loop limit read cached (suc fuel) hops arn at before kv).0
          ≡ ok (cached_chain (before ++ at ∷ []) entry)
    unfolding warm_loop
    round-hit entry e = rw e

    round-end :
        (c : Credential)
        → consulted.0 ≡ ok none
        → read at ≡ ok c
        → present c.assumed_by ≡ false
        → (warm_loop limit read cached (suc fuel) hops arn at before kv).0
          ≡ warm_end (before ++ at ∷ []) c
    unfolding warm_loop
    round-end c e r p =
        rw (e, r, p)
          (ap (λ (m : Exec Kv CredentialChain). (m consulted.1).0)
            (if-false (leb limit (hops + 1) && false) _ _ (and-false (leb limit (hops + 1)))))

    round-next :
        (c : Credential)
        → consulted.0 ≡ ok none
        → read at ≡ ok c
        → present c.assumed_by ≡ true
        → leb limit (hops + 1) ≡ false
        → (warm_loop limit read cached (suc fuel) hops arn at before kv).0
          ≡ (warm_loop limit read cached fuel
              (hops + 1)
              arn
              (step_to c.assumed_by at)
              (before ++ at ∷ [])
              consulted.1).0
    unfolding warm_loop
    round-next c e r p q =
        rw (e, r, p)
          (ap (λ (m : Exec Kv CredentialChain). (m consulted.1).0)
            (if-false (leb limit (hops + 1) && true) _ _ (rw q)))

  longer : (before : List Credential) (c : Credential) → 1 ≤ length (arns_of (before ++ c ∷ []))
  longer [] c = omega arith
  longer (b ∷ before) c = omega arith

  unequal_of_consult :
      (at arn : String) (b : Bool) (n : ℕ)
      → (not (at == arn) && b) ≡ true
      → ((at ≡ arn) ⊎ (1 ≤ n))
      → 1 ≤ n
  unequal_of_consult at arn b n e start = ground (arith, eq_iff at arn)

  -- What the walk returns: the chain, or a cut of it.
  abbrev pub Serves : Result CredentialChain → CredentialChain → Type 0
  Serves r chain = (r ≡ ok chain) ⊎ ((cut : CredentialChain) × (r ≡ ok cut) × IsCut chain cut)

  arns_of-middle :
      (before rows : List Credential) (c : Credential) (at : String)
      → c.principal_arn ≡ at
      → arns_of (before ++ c ∷ rows) ≡ arns_of before ++ at ∷ arns_of rows
  arns_of-middle before rows c at k = rw (map-append, k)

  module _ (a : Answers) (k : IsKeyed limit read cached) (arn : String)
      (chain : CredentialChain) where
    -- What a hit of the cache makes of the walk.
    hit-Serves :
        (fuel hops : ℕ) (at : String) (before rows : List Credential) (c : Credential) (kv : Kv)
        (entry : CredentialCache)
        → read at ≡ ok c
        → ((at ≡ arn) ⊎ (1 ≤ length (arns_of before)))
        → chain.principal_arns ≡ arns_of (before ++ c ∷ rows)
        → (not (at == arn) && not (leb limit (hops + 1))) ≡ true
        → (consulted fuel hops arn at (arns_of before) kv).0 ≡ ok (some entry)
        → (cached at kv).0 ≡ ok (some entry)
        → Serves (warm_loop limit read cached (suc fuel) hops arn at (arns_of before) kv).0 chain
    hit-Serves fuel hops at before rows c kv entry r start p b hit held = inr (
      cached_chain (arns_of before ++ at ∷ []) entry,
      round-hit fuel hops arn at (arns_of before) kv entry hit,
      record {
        before = arns_of before;
        hit = at;
        after = arns_of rows;
        entry = entry;
        kv = kv;
        parts = p ∙ arns_of-middle before rows c at (k at c r);
        cut_at = refl;
        intermediate = unequal_of_consult at arn (not (leb limit (hops + 1))) _ b start;
        held = held;
      },
    )

    warm_loop-Follows :
        (fuel hops : ℕ) (at : String) (before rows : List Credential) (c : Credential) (kv : Kv)
        → read at ≡ ok c
        → Follows read c rows
        → length rows < fuel
        → hops + length rows < limit
        → ((at ≡ arn) ⊎ (1 ≤ length (arns_of before)))
        → cold_end limit read (before ++ c ∷ rows) (last_row c rows) ≡ ok chain
        → chain.principal_arns ≡ arns_of (before ++ c ∷ rows)
        → Serves (warm_loop limit read cached fuel hops arn at (arns_of before) kv).0 chain
    warm_loop-Follows zero hops at before rows c kv r f h l start e p = absurd (omega arith)
    warm_loop-Follows (suc fuel) hops at before [] c kv r f h l start e p =
        elim (consult-cases a (not (at == arn) && not (leb limit (hops + 1))) at kv) [
          | inr (entry, b, hit, held) ↦
              hit-Serves fuel hops at before [] c kv entry r start p b hit held
          | inl miss ↦ inl (
              round-end fuel hops arn at (arns_of before) kv c miss r f
              ∙ ap (λ arns. warm_end arns c) (arns_of-snoc before c at (k at c r))
              ∙ warm_end-eq limit read (before ++ c ∷ []) c
              ∙ e)
        ]
    warm_loop-Follows (suc fuel) hops at before (d ∷ rows) c kv r (more, r', f) h l start e p =
        elim (consult-cases a (not (at == arn) && not (leb limit (hops + 1))) at kv) [
          | inr (entry, b, hit, held) ↦
              hit-Serves fuel hops at before (d ∷ rows) c kv entry r start p b hit held
          | inl miss ↦
              let next = step_to c.assumed_by at in
              let kv' = (consulted fuel hops arn at (arns_of before) kv).1 in
              let before' = before ++ c ∷ [] in
              rw
                (
                  round-next fuel hops arn at (arns_of before) kv c miss r more
                      (lt→leb limit (hops + 1) (omega arith)),
                  arns_of-snoc before c at (k at c r),
                )
                (warm_loop-Follows fuel (hops + 1) next before' rows d kv'
                  (rw (step_to-eq c.assumed_by at more) r') f (omega arith) (omega arith)
                  (inr (longer before c)) (rw (append_assoc before (c ∷ []) (d ∷ rows)) e)
                  (rw (append_assoc before (c ∷ []) (d ∷ rows)) p))
        ]

    -- Where the cold walk returns a chain, the warm walk returns it too, or a cut of it: a prefix
    -- of at least two principals, with the keys that the cache holds for the last of them. For a
    -- positive limit, a cache that never throws and reads that answer with the row asked for.
    pub get_chain_to_first_cached-Serves :
        (kv : Kv)
        → 0 < limit
        → get_credential_chain limit read arn ≡ ok chain
        → Serves (get_chain_to_first_cached limit read cached arn kv).0 chain
    unfolding get_chain_to_first_cached get_credential_chain
    get_chain_to_first_cached-Serves kv h e =
        let (c, rows, r, f, b, q) = cold_loop_sound limit read (suc limit) 0 arn [] chain h e in
        warm_loop-Follows (suc limit) 0 arn [] rows c kv r f (omega arith) (omega arith) (inl refl)
          q (cold_end-arns limit read (c ∷ rows) (last_row c rows) chain q)
