-- ===== src/Credential/Chain/Agreement.antt =====
-- The warm walk against the cold one.
use mathlib.Core.List.{map-append}
use aws_access_bridge.Base.{
  ℕ, zero, suc, ◌+◌, String, ◌≡◌, refl, ap, inl, inr, Option, none, List, [], ◌∷◌, ◌++◌, Bool, true,
  false, not, ◌&&◌, ◌==◌, arith, leb, length, map, present, Bool-cases,
}
use aws_access_bridge.Base.Errors.{Result, ok, Result-cases}
use aws_access_bridge.Base.Exec.{Exec}
use aws_access_bridge.Credential.Model.{Credential, CredentialCache}
use aws_access_bridge.Credential.Chain.{step_to}
use aws_access_bridge.Credential.Chain.Cold.{cold_end, cold_loop, get_credential_chain}
use aws_access_bridge.Credential.Chain.Warm.{
  warm_end, consult, warm_loop, get_chain_to_first_cached,
}

abbrev pub arns_of : List Credential → List String
arns_of = map (λ r. r.principal_arn)

length-arns_of : (rows : List Credential) → length (arns_of rows) ≡ length rows
length-arns_of [] = refl
length-arns_of (r ∷ rows) = ap suc (length-arns_of rows)

pub arns_of-snoc :
    (before : List Credential) (c : Credential) (at : String)
    → c.principal_arn ≡ at
    → arns_of before ++ at ∷ [] ≡ arns_of (before ++ c ∷ [])
arns_of-snoc before c at k = rw (map-append, k)

-- The two ends test the keys and the length in a different order, to the same effect.
pub warm_end-eq :
    (limit : ℕ) (read : String → Result Credential) (rows : List Credential) (c : Credential)
    → warm_end (arns_of rows) c ≡ cold_end limit read rows c
unfolding warm_end cold_end
warm_end-eq limit read rows c = rw (length-arns_of rows) (ground arith)

module _ {Kv : Type 0} (limit : ℕ) (read : String → Result Credential)
    (cached : String → Exec Kv (Option CredentialCache)) where
  -- The cache answers each time that it holds nothing.
  abbrev Misses : Type 0
  Misses = (arn : String) (kv : Kv) → (cached arn kv).0 ≡ ok none

  -- What is read at an ARN is the row of that ARN.
  abbrev pub IsKeyed : Type 0
  IsKeyed = (arn : String) (c : Credential) → read arn ≡ ok c → c.principal_arn ≡ arn

  consult-miss :
      Misses
      → (b : Bool) (arn : String) (kv : Kv) → (consult limit read cached b arn kv).0 ≡ ok none
  unfolding consult
  consult-miss m true arn kv = m arn kv
  consult-miss m false arn kv = refl

  warm_loop-miss :
      (fuel hops : ℕ) (arn at : String) (before : List Credential) (kv : Kv)
      → Misses
      → IsKeyed
      → (warm_loop limit read cached fuel hops arn at (arns_of before) kv).0
        ≡ cold_loop limit read fuel hops at before
  unfolding warm_loop cold_loop
  warm_loop-miss zero hops arn at before kv m k = refl
  warm_loop-miss (suc fuel) hops arn at before kv m k =
      let b = not (at == arn) && not (leb limit (hops + 1)) in
      elim (Result-cases (read at)) [
        | inr (e, r) ↦ rw (consult-miss m b at kv, r)
        | inl (c, r) ↦
            let kv' = (consult limit read cached (not (at == arn) && true) at kv).1 in
            let rows = before ++ c ∷ [] in
            let e = arns_of-snoc before c at (k at c r) in
            elim (Bool-cases (present c.assumed_by)) [
              | inr p ↦
                  rw (consult-miss m b at kv, r, p, e)
                    (elim (Bool-cases (leb limit (hops + 1))) [
                      | inl q ↦ rw q (warm_end-eq limit read rows c)
                      | inr q ↦ rw q (warm_end-eq limit read rows c)
                    ])
              | inl p ↦ elim (Bool-cases (leb limit (hops + 1))) [
                | inl q ↦ rw (consult-miss m b at kv, r, p, q) refl
                | inr q ↦
                    rw (consult-miss m b at kv, r, p, q, e)
                      (warm_loop-miss fuel (hops + 1) arn (step_to c.assumed_by at) rows kv' m k)
              ]
            ]
      ]

  -- Where the cache holds nothing, and a read answers with the row asked for, the warm walk answers
  -- as the cold one does, errors included.
  pub get_chain_to_first_cached-miss :
      (arn : String) (kv : Kv)
      → Misses
      → IsKeyed
      → (get_chain_to_first_cached limit read cached arn kv).0 ≡ get_credential_chain limit read arn
  unfolding get_chain_to_first_cached get_credential_chain
  get_chain_to_first_cached-miss arn kv m k = warm_loop-miss (suc limit) 0 arn arn [] kv m k
