-- ===== src/Identity/Moves.antt =====
-- What a change of address does to the tables.
use aws_access_bridge.Base.{
  ℕ, String, ◌≡◌, refl, ap, sym, Option, none, some, true, false, inl, inr, Bool-cases,
}
use aws_access_bridge.Base.Errors.{ServiceError, Result, ok, err}
use aws_access_bridge.Credential.Vault.{update}
use aws_access_bridge.Identity.Address.{lower}
use aws_access_bridge.Identity.Rows.{UserEmail, Registry, read}
use aws_access_bridge.Identity.Emails.{
  get, register, upserted, claimed_by_other, register_over, upsert, put,
}

-- The registry after a claim.
abbrev pub claimed_row : String → ℕ → Option UserEmail → UserEmail
claimed_row user_id now none = record { user_id = user_id; is_verified = true; created_at = now }
claimed_row user_id now (some old) = record old { user_id = user_id; is_verified = true }

abbrev pub claim : String → String → ℕ → Registry → Registry
claim email user_id now s = record s {
  emails = update s.emails (lower email) (some (claimed_row user_id now (s.emails (lower email))));
}

-- A claimed address was free, and is the only one that the claim writes.
abbrev IsClaim : String → String → ℕ → Registry → Registry → Type 0
IsClaim email user_id now s t =
    (s.emails_fault ≡ none)
    × (claimed_by_other (s.emails (lower email)) ≡ false)
    × (t ≡ claim email user_id now s)

pub read-eq-ok :
    {A : Type 0} (fault : Option ServiceError) (a b : A)
    → read fault a ≡ ok b
    → (fault ≡ none) × (a ≡ b)
read-eq-ok none a b h = (refl, cc)
read-eq-ok (some e) a b h = cc

over-eq-ok :
    (r : Result (Option UserEmail)) (email : String) (new : UserEmail) (s t : Registry)
    → register_over r email new s ≡ (ok true, t)
    → (old : Option UserEmail) × (r ≡ ok old)
      × (claimed_by_other old ≡ false)
      × (upsert email new s ≡ (ok true, t))
over-eq-ok (err e) email new s t h = cc
over-eq-ok (ok none) email new s t h = (none, refl, refl, h)
over-eq-ok (ok (some old)) email new s t h = elim (Bool-cases old.is_verified) [
  | inl v ↦ cc (rw v at h)
  | inr v ↦ (some old, refl, v, rw v at h)
]

upserted-free :
    (user_id : String) (now : ℕ) (old : Option UserEmail)
    → claimed_by_other old ≡ false
    → upserted (record { user_id = user_id; is_verified = true; created_at = now }) old
      ≡ some (claimed_row user_id now old)
upserted-free user_id now none h = refl
upserted-free user_id now (some old) h = rw h refl

module _ (email user_id : String) (now : ℕ) (s t : Registry) where
  pub register-IsClaim :
      register email user_id true now s ≡ (ok true, t) → IsClaim email user_id now s t
  unfolding register get
  register-IsClaim h =
      let (old, found, free, written) = over-eq-ok (get (lower email) s) (lower email) _ s t h in
      let (up, same) = read-eq-ok s.emails_fault (s.emails (lower email)) old found in
      let free' : claimed_by_other (s.emails (lower email)) ≡ false = rw same free in
      (
        up,
        free',
        sym (
            ap (λ r. r.1)
              (rw (upsert, put, upserted-free user_id now (s.emails (lower email)) free') at
                written)),
      )
