-- ===== src/Identity/Change.antt =====
-- Which addresses sign an account in after it has changed its address.
use mathlib.Core.Option
use aws_access_bridge.Base.{
  ℕ, String, ◌≡◌, ◌≢◌, refl, ap, sym, ◌∙◌, Option, none, some, List, [], ◌∷◌, map, Bool, true,
  false, inl, inr, Bool-cases, text_or_empty, ◌==◌, eq_iff, is_set, differ, if-true, if◌then◌else◌,
}
use aws_access_bridge.Base.Errors
use aws_access_bridge.Base.Errors.{ServiceError, Result, ok, err}
use aws_access_bridge.Identity.Address.{lower, trim}
use aws_access_bridge.Identity.Rows.{UserEmail, User, Registry, first, column_is, read}
use aws_access_bridge.Identity.Emails.{revoke_all_verified, revoked}
use aws_access_bridge.Identity.Users.{get_by_id, with_address, set_current_email}
use aws_access_bridge.Identity.Moves.{claimed_row, read-eq-ok}
use aws_access_bridge.Identity.Primary.{
  moved, set_primary_email-eq-ok, moved-new, moved-other, load-registered, first-map, read-ok,
}
use aws_access_bridge.Identity.Resolver.{
  AccountIdentity, address_of, account_of, tolerate, hydrate, load,
}
use aws_access_bridge.Identity.Addresses.{set_primary_email}

some-injective : {A : Type 0} {a b : A} → some a ≡ some b → a ≡ b
some-injective h = cc

first-passes : (p : User → Bool) (us : List User) (u : User) → first p us ≡ some u → p u ≡ true
unfolding first
first-passes p [] u h = cc
first-passes p (v ∷ us) u h = elim (Bool-cases (p v)) [
  | inl e ↦ rw (sym (some-injective (rw e at h))) e
  | inr e ↦ first-passes p us u (rw e at h)
]

-- A change that leaves the rows that pass as they are, and passes no other.
first-map-same :
    (p : User → Bool) (f : User → User) (us : List User)
    → ((u : User) → p (f u) ≡ p u)
    → ((u : User) → p u ≡ true → f u ≡ u)
    → first p (map f us) ≡ first p us
unfolding first
first-map-same p f [] h k = refl
first-map-same p f (u ∷ us) h k = elim (Bool-cases (p u)) [
  | inl e ↦ rw (map, first, h u, e) (ap some (k u e))
  | inr e ↦ rw (map, first, h u, e) (first-map-same p f us h k)
]

column_is-eq : (x : String) (column : Option String) → column_is x column ≡ true → column ≡ some x
column_is-eq x none h = cc
column_is-eq x (some y) h = ap some ((eq_iff y x).0 h)

with_address-id :
    (p : String) (user_id email : String) (u : User)
    → column_is p (with_address user_id email u).id ≡ column_is p u.id
with_address-id p user_id email u = elim (Bool-cases (column_is user_id u.id)) [
  | inl e ↦ rw e refl
  | inr e ↦ rw e refl
]

with_address-other :
    (v user_id email : String) (u : User)
    → v ≢ user_id
    → column_is v u.id ≡ true
    → with_address user_id email u ≡ u
with_address-other v user_id email u h e = elim (Bool-cases (column_is user_id u.id)) [
  | inl f ↦ absurd (h (some-injective (sym (column_is-eq v u.id e) ∙ column_is-eq user_id u.id f)))
  | inr f ↦ rw f refl
]

claimed_row-is_verified :
    (user_id : String) (now : ℕ) (old : Option UserEmail)
    → (claimed_row user_id now old).is_verified ≡ true
claimed_row-is_verified user_id now none = refl
claimed_row-is_verified user_id now (some row) = refl

claimed_row-user_id :
    (user_id : String) (now : ℕ) (old : Option UserEmail)
    → (claimed_row user_id now old).user_id ≡ user_id
claimed_row-user_id user_id now none = refl
claimed_row-user_id user_id now (some row) = refl

module _ (m : ServiceError → Bool) (user_id email : String) (now : ℕ) (s : Registry) where
  hydrate-other :
      (v : String) → v ≢ user_id → hydrate m v (moved user_id email now s) ≡ hydrate m v s
  unfolding hydrate get_by_id set_current_email revoke_all_verified
  hydrate-other v h =
      ap
        (λ found. Errors.◌>>=◌ (tolerate m (read s.users_fault found)) (λ row. ok (account_of row)))
        (first-map-same (λ u. column_is v u.id) (with_address user_id email) s.users
          (with_address-id v user_id email) (λ u e. with_address-other v user_id email u h e))

  hydrate-moved :
      (u : User)
      → get_by_id user_id s ≡ ok (some u)
      → is_set (text_or_empty u.id) ≡ true
      → hydrate m user_id (moved user_id email now s)
        ≡ ok (
            some (record { id = user_id; email = trim (lower email); anchor_email = u.user_email }))
  unfolding hydrate get_by_id set_current_email revoke_all_verified address_of
  hydrate-moved u found set =
      let (up, here) =
        read-eq-ok s.users_fault (first (λ v. column_is user_id v.id) s.users) (some u) found in
      let passes = first-passes (λ v. column_is user_id v.id) s.users u here in
      let there : first (λ v. column_is user_id v.id) (map (with_address user_id email) s.users)
          ≡ some (record u { current_email = some (lower email) }) =
        first-map (λ v. column_is user_id v.id) (with_address user_id email) s.users
          (with_address-id user_id user_id email)
        ∙ ap (Option.map (with_address user_id email)) here
        ∙ ap some (if-true (column_is user_id u.id) _ _ passes) in
      let named : text_or_empty u.id ≡ user_id =
        ap text_or_empty (column_is-eq user_id u.id passes) in
      ap (λ r. Errors.◌>>=◌ (tolerate m r) (λ row. ok (account_of row)))
        (read-ok s.users_fault _ _ up there)
      ∙ rw (set, named) refl

  moved-up : s.emails_fault ≡ none → (moved user_id email now s).emails_fault ≡ none
  unfolding set_current_email revoke_all_verified
  moved-up up = up

  load-moved-new :
      (a : String)
      → s.emails_fault ≡ none
      → lower a ≡ lower email
      → load m a (moved user_id email now s) ≡ hydrate m user_id (moved user_id email now s)
  load-moved-new a up same =
      let old = s.emails (lower email) in
      let here : (moved user_id email now s).emails (lower a) ≡ some (claimed_row user_id now old) =
        rw same (moved-new user_id email now s) in
      load-registered m a (moved user_id email now s) (claimed_row user_id now old) (moved-up up)
        here
      ∙ if-true (claimed_row user_id now old).is_verified _ _
          (claimed_row-is_verified user_id now old)
      ∙ ap (λ v. hydrate m v (moved user_id email now s)) (claimed_row-user_id user_id now old)

  load-moved-other :
      (a : String) (row : UserEmail)
      → s.emails_fault ≡ none
      → lower a ≢ lower email
      → s.emails (lower a) ≡ some row
      → load m a (moved user_id email now s)
        ≡ (if row.user_id == user_id then ok none else load m a s)
  load-moved-other a row up other here =
      load-registered m a (moved user_id email now s) (revoked user_id false row) (moved-up up)
        (moved-other user_id email now s (lower a) row other here)
      ∙ elim (Bool-cases (row.user_id == user_id)) [
        | inl e ↦ rw e refl
        | inr e ↦ rw e (
            ap (λ r. if row.is_verified then r else ok none)
              (hydrate-other row.user_id (differ row.user_id user_id e))
            ∙ sym (load-registered m a s row up here))
      ]

pub get_by_id-id :
    (user_id : String) (u : User) (s : Registry)
    → get_by_id user_id s ≡ ok (some u)
    → text_or_empty u.id ≡ user_id
unfolding get_by_id
get_by_id-id user_id u s found =
    let (_, here) =
      read-eq-ok s.users_fault (first (λ v. column_is user_id v.id) s.users) (some u) found in
    ap text_or_empty
      (column_is-eq user_id u.id (first-passes (λ v. column_is user_id v.id) s.users u here))

module _ (m : ServiceError → Bool) (user_id new : String) (now : ℕ) (u : User) (s t : Registry)
    (account : AccountIdentity) (found : get_by_id user_id s ≡ ok (some u))
    (changes : (lower (address_of u) == lower (trim new)) ≡ false)
    (returned : set_primary_email m user_id new now s ≡ (ok account, t)) where
  -- Where `setPrimaryEmail` moves the account of an identifier to another address and returns, that
  -- address, in any case, resolves to this account from then on: to its identifier and its anchor,
  -- with the address in lower case.
  pub set_primary_email-new :
      (a : String)
      → lower a ≡ lower (trim new)
      → load m a t ≡ ok (some (record account { email = trim (lower (trim new)) }))
  set_primary_email-new a same =
      let (up, there, set, name) =
        set_primary_email-eq-ok m user_id new now u s t account found changes returned in
      let named = get_by_id-id user_id u s found in
      rw (there, name, named)
        (load-moved-new m user_id (trim new) now s a up same
          ∙ hydrate-moved m user_id (trim new) now s u found set)

  -- Where `setPrimaryEmail` moves the account of an identifier to another address and returns,
  -- every other address in the registry resolves to nothing if it is this account's, and as before
  -- if it is another's.
  pub set_primary_email-others :
      (a : String) (row : UserEmail)
      → lower a ≢ lower (trim new)
      → s.emails (lower a) ≡ some row
      → load m a t ≡ (if row.user_id == user_id then ok none else load m a s)
  set_primary_email-others a row other here =
      let (up, there, set, name) =
        set_primary_email-eq-ok m user_id new now u s t account found changes returned in
      let named = get_by_id-id user_id u s found in
      rw (there, named) (load-moved-other m user_id (trim new) now s a row up other here)
