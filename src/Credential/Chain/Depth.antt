-- ===== src/Credential/Chain/Depth.antt =====
-- The cold walk returns exactly the chains of at least two and at most `limit` principals.
use aws_access_bridge.Base.{
  text_or_empty, ℕ, zero, suc, ◌+◌, ◌-◌, ◌≢◌, ◌≤◌, ◌<◌, String, ◌≡◌, refl, sym, ◌∙◌, ap, ◌↔◌, inl,
  inr, List, [], ◌∷◌, ◌++◌, true, arith, leb, lt→leb, le→leb, leb→lt, length, map, present,
  Bool-cases,
}
use aws_access_bridge.Base.Errors.{
  Result, ok, err, internal_server, out_of_fuel, Result-cases, >>=-eq-ok,
}
use aws_access_bridge.Credential.Model.{Credential, CredentialChain}
use aws_access_bridge.Credential.Chain.{too_deep, step_to, has_keys, chain_of}
use aws_access_bridge.Credential.Chain.Cold.{cold_end, cold_loop, get_credential_chain}
use aws_access_bridge.Credential.Chain.Linked.{Follows, Reads, last_row, step_to-eq}
use mathlib.Core.List.{append_assoc}

module _ (limit : ℕ) (read : String → Result Credential) where
  -- On a chain that fits the budget the loop ends with all of its rows.
  cold_loop-Follows :
      (fuel hops : ℕ) (at : String) (before rows : List Credential) (c : Credential)
      → read at ≡ ok c
      → Follows read c rows
      → length rows < fuel
      → hops + length rows < limit
      → cold_loop limit read fuel hops at before
        ≡ cold_end limit read (before ++ c ∷ rows) (last_row c rows)
  unfolding cold_loop
  cold_loop-Follows zero hops at before rows c r f h k = absurd (omega arith)
  cold_loop-Follows (suc fuel) hops at before [] c r f h k = rw (r, f) refl
  cold_loop-Follows (suc fuel) hops at before (d ∷ rows) c r (p, r', f) h k =
      rw (r, p, lt→leb limit (hops + 1) (omega arith))
        (cold_loop-Follows fuel (hops + 1) (step_to c.assumed_by at) (before ++ c ∷ []) rows d
            (rw (step_to-eq c.assumed_by at p) r') f (omega arith) (omega arith)
          ∙ ap (λ rs. cold_end limit read rs (last_row d rows))
              (append_assoc before (c ∷ []) (d ∷ rows)))

  -- Where a row past the budget still has an `assumed_by`, the loop refuses.
  cold_loop-too_deep :
      (fuel hops : ℕ) (at : String) (before rows : List Credential) (c : Credential)
      → read at ≡ ok c
      → Reads read c rows
      → length rows < fuel
      → hops + length rows + 1 ≡ limit
      → cold_loop limit read fuel hops at before ≡ err (internal_server too_deep)
  unfolding cold_loop
  cold_loop-too_deep zero hops at before rows c r f h k = absurd (omega arith)
  cold_loop-too_deep (suc fuel) hops at before [] c r f h k =
      rw (r, f, le→leb limit (hops + 1) (omega arith)) refl
  cold_loop-too_deep (suc fuel) hops at before (d ∷ rows) c r (p, r', f) h k =
      rw (r, p, lt→leb limit (hops + 1) (omega arith))
        (cold_loop-too_deep fuel (hops + 1) (step_to c.assumed_by at) (before ++ c ∷ []) rows d
          (rw (step_to-eq c.assumed_by at p) r') f (omega arith) (omega arith))

  -- What the loop returns comes from a chain that fits the budget.
  pub cold_loop_sound :
      (fuel hops : ℕ) (at : String) (before : List Credential) (chain : CredentialChain)
      → hops < limit
      → cold_loop limit read fuel hops at before ≡ ok chain
      → (c : Credential) × (rows : List Credential) × (read at ≡ ok c)
        × Follows read c rows
        × (hops + length rows < limit)
        × (cold_end limit read (before ++ c ∷ rows) (last_row c rows) ≡ ok chain)
  unfolding cold_loop
  cold_loop_sound zero hops at before chain k e = cc
  cold_loop_sound (suc fuel) hops at before chain k e =
      let (c, r, e') = >>=-eq-ok (read at) _ e in
      elim (Bool-cases (present c.assumed_by)) [
        | inr done ↦ (c, [], r, done, omega arith, rw done at e')
        | inl more ↦ elim (Bool-cases (leb limit (hops + 1))) [
          | inl deep ↦ cc (rw (more, deep) at e')
          | inr room ↦
              let (d, rows, r', f, b, q) =
                cold_loop_sound fuel (hops + 1) (step_to c.assumed_by at) (before ++ c ∷ []) chain
                  (leb→lt limit (hops + 1) room) (rw (more, room) at e') in
              (
                c,
                d ∷ rows,
                r,
                (more, rw (step_to-eq c.assumed_by at more) at r', f),
                omega arith,
                rw (append_assoc before (c ∷ []) (d ∷ rows)) at q,
              )
        ]
      ]

-- The chain that `arn` resolves to: rows linked by `assumed_by` from the target to a base that
-- holds both keys, at least two and at most `limit` of them.
pub record IsResolved (limit : ℕ) (read : String → Result Credential) (arn : String)
    (chain : CredentialChain) : Type 0 where
  pub target : Credential
  pub next : Credential
  pub rows : List Credential
  pub read_target : read arn ≡ ok target
  pub follows : Follows read target (next ∷ rows)
  pub fits : length (target ∷ next ∷ rows) ≤ limit
  pub keys : has_keys (last_row next rows) ≡ true
  pub result :
      chain ≡ chain_of (map (λ r. r.principal_arn) (target ∷ next ∷ rows)) (last_row next rows)

module _ (limit : ℕ) (read : String → Result Credential) (c d l : Credential)
    (rows : List Credential) where
  cold_end-keys :
      has_keys l ≡ true
      → cold_end limit read (c ∷ d ∷ rows) l
        ≡ ok (chain_of (map (λ r. r.principal_arn) (c ∷ d ∷ rows)) l)
  unfolding cold_end
  cold_end-keys h = rw (h, lt→leb (length (c ∷ d ∷ rows)) 1 (omega arith))

  keys-cold_end :
      (chain : CredentialChain)
      → cold_end limit read (c ∷ d ∷ rows) l ≡ ok chain
      → has_keys l ≡ true
  unfolding cold_end
  keys-cold_end chain e = ground arith

module _ (limit : ℕ) (read : String → Result Credential) where
  pub cold_end-arns :
      (rows : List Credential) (l : Credential) (chain : CredentialChain)
      → cold_end limit read rows l ≡ ok chain
      → chain.principal_arns ≡ map (λ r. r.principal_arn) rows
  unfolding cold_end
  cold_end-arns rows l chain e = ground arith

module _ (limit : ℕ) (read : String → Result Credential) (arn : String) where
  rows-IsResolved :
      (chain : CredentialChain) (c : Credential) (rows : List Credential)
      → read arn ≡ ok c
      → Follows read c rows
      → length rows < limit
      → cold_end limit read (c ∷ rows) (last_row c rows) ≡ ok chain
      → IsResolved limit read arn chain
  unfolding cold_end
  rows-IsResolved chain c [] r f k e = absurd (ground arith)
  rows-IsResolved chain c (d ∷ rows) r f k e =
      let keys = keys-cold_end limit read c d (last_row d rows) rows chain e in
      record {
        target = c;
        next = d;
        rows = rows;
        read_target = r;
        follows = f;
        fits = omega arith;
        keys = keys;
        result = cc (e, cold_end-keys limit read c d (last_row d rows) rows keys);
      }

  -- The cold walk returns a chain exactly when the chain is what `arn` resolves to: linked rows
  -- down to a base with both keys, no fewer than two and no more than the trust chain limit, which
  -- is positive.
  pub get_credential_chain_iff :
      (chain : CredentialChain)
      → 0 < limit
      → (get_credential_chain limit read arn ≡ ok chain) ↔ IsResolved limit read arn chain
  unfolding get_credential_chain cold_end
  get_credential_chain_iff chain h = (
    λ e.
        let (c, rows, r, f, b, q) = cold_loop_sound limit read (suc limit) 0 arn [] chain h e in
        rows-IsResolved chain c rows r f (omega arith) q,
    λ v.
        cold_loop-Follows limit read (suc limit) 0 arn [] (v.next ∷ v.rows) v.target v.read_target
          v.follows (let k = v.fits in omega arith) (let k = v.fits in omega arith)
        ∙ (cold_end-keys limit read v.target v.next (last_row v.next v.rows) v.rows v.keys
            ∙ ap ok (sym v.result)),
  )

module _ (limit : ℕ) (read : String → Result Credential) where
  -- A set of principals with no base in it: each is read, and is assumed by another of the set.
  pub record IsBaseless (P : String → Type 0) : Type 0 where
    pub row : (arn : String) → P arn → Credential
    pub reads : (arn : String) (h : P arn) → read arn ≡ ok (row arn h)
    pub more : (arn : String) (h : P arn) → present (row arn h).assumed_by ≡ true
    pub stays : (arn : String) (h : P arn) → P (text_or_empty (row arn h).assumed_by)

  module _ (P : String → Type 0) (v : IsBaseless P) where
    baseless-Reads :
        (n : ℕ) (arn : String) (h : P arn)
        → (rows : List Credential) × (length rows ≡ n) × Reads read (v.row arn h) rows
    baseless-Reads zero arn h = ([], refl, v.more arn h)
    baseless-Reads (suc n) arn h =
        let next = text_or_empty (v.row arn h).assumed_by in
        let (rows, e, f) = baseless-Reads n next (v.stays arn h) in
        (
          v.row next (v.stays arn h) ∷ rows,
          ap suc e,
          (v.more arn h, v.reads next (v.stays arn h), f),
        )

    -- A principal from which the relations never reach a base, as on a cycle, is refused for depth
    -- by the cold walk, whatever positive limit is configured.
    pub get_credential_chain-baseless :
        (arn : String)
        → P arn
        → 0 < limit
        → get_credential_chain limit read arn ≡ err (internal_server too_deep)
    unfolding get_credential_chain
    get_credential_chain-baseless arn h k =
        let (rows, e, f) = baseless-Reads (limit - 1) arn h in
        cold_loop-too_deep limit read (suc limit) 0 arn [] rows (v.row arn h) (v.reads arn h) f
          (omega arith) (omega arith)

  cold_loop-fuel :
      (fuel hops : ℕ) (at : String) (before : List Credential)
      → ((arn : String) → read arn ≢ err out_of_fuel)
      → limit < hops + fuel
      → 0 < fuel
      → cold_loop limit read fuel hops at before ≢ err out_of_fuel
  unfolding cold_loop cold_end
  cold_loop-fuel zero hops at before safe h p e = absurd (omega arith)
  cold_loop-fuel (suc zero) hops at before safe h p e = ground (arith, safe at)
  cold_loop-fuel (suc (suc fuel)) hops at before safe h p e = elim (Result-cases (read at)) [
    | inl (c, r) ↦ ground (
      arith,
      cold_loop-fuel (suc fuel) (hops + 1) (step_to c.assumed_by at) (before ++ c ∷ []) safe,
    )
    | inr (x, r) ↦ safe at (cc (r, e))
  ]

  -- The fuel of the cold walk suffices: where no read runs out of fuel, the walk does not.
  pub get_credential_chain-fuel :
      (arn : String)
      → ((arn' : String) → read arn' ≢ err out_of_fuel)
      → get_credential_chain limit read arn ≢ err out_of_fuel
  unfolding get_credential_chain
  get_credential_chain-fuel arn safe =
      cold_loop-fuel (suc limit) 0 arn [] safe (omega arith) (omega arith)
