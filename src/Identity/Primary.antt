-- ===== src/Identity/Primary.antt =====
-- Which addresses sign an account in after it has changed its address.
use aws_access_bridge.Base.{
  ≢-differ, not-false, ℕ, String, ◌≡◌, ◌≢◌, refl, ap, sym, ◌∙◌, Option, none, some, List, [], ◌∷◌,
  map, Bool, true, false, not, inl, inr, Bool-cases, text_or_empty, ◌==◌, eq_refl, is_set,
  if◌then◌else◌,
}
use aws_access_bridge.Base.Errors
use mathlib.Core.Option
use aws_access_bridge.Base.Errors.{ServiceError, Result, ok, err}
use aws_access_bridge.Base.Exec.{◌>>=◌, continue-state, if-state, >>=-eq-ok, throw_if-eq-ok}
use aws_access_bridge.Credential.Vault.{update-same, update-other}
use aws_access_bridge.Identity.Address.{lower, trim, is_email}
use aws_access_bridge.Identity.Rows.{UserEmail, User, Registry, first, read}
use aws_access_bridge.Identity.Emails.{get, register, revoke_all_verified, revoked}
use aws_access_bridge.Identity.Users.{get_by_id, get_by_current_email, set_current_email}
use aws_access_bridge.Identity.Moves.{claim, claimed_row, register-IsClaim}
use aws_access_bridge.Identity.Resolver.{
  AccountIdentity, address_of, tolerate, hydrate, load, load_from,
}
use aws_access_bridge.Identity.Addresses.{
  set_primary_email, move_to, is_claimed_by_other, identity, reads, change_user, change_address,
  verified_for_other,
}

-- The registry after a move.
abbrev pub moved : String → String → ℕ → Registry → Registry
moved user_id email now s =
    set_current_email user_id email (revoke_all_verified user_id email (claim email user_id now s))

abbrev account_in : Result AccountIdentity → AccountIdentity
account_in (ok account) = account
account_in (err e) = record { id = ""; email = ""; anchor_email = "" }

ok-injective : {A : Type 0} {a b : A} → ok a ≡ ok b → a ≡ b
ok-injective h = cc

move_to-eq-ok :
    (u : User) (email : String) (now : ℕ) (s t : Registry) (account : AccountIdentity)
    → move_to u email now s ≡ (ok account, t)
    → (s.emails_fault ≡ none)
      × (t ≡ moved (text_or_empty u.id) email now s)
      × (account ≡ identity u email)
unfolding move_to
move_to-eq-ok u email now s t account h =
    let (claimed, won, rest) =
      >>=-eq-ok _ (register email (text_or_empty u.id) true now) s t account h in
    let (free, rest) = throw_if-eq-ok (not claimed) _ _ _ t account rest in
    let yes : claimed ≡ true = not-false claimed free in
    let (up, _, written) =
      register-IsClaim email (text_or_empty u.id) now s
        (register email (text_or_empty u.id) true now s).1
        (ap (λ r. (r, (register email (text_or_empty u.id) true now s).1)) (rw yes at won)) in
    (up, rw written at (sym (ap (λ r. r.1) rest)), sym (ap account_in (ap (λ r. r.0) rest)))

pub is_claimed_by_other-state :
    (m : ServiceError → Bool) (email user_id : String) (s : Registry)
    → (is_claimed_by_other m email user_id s).1 ≡ s
unfolding is_claimed_by_other
is_claimed_by_other-state m email user_id s =
    continue-state (tolerate m (get (lower email) s)) _ s (λ registered.
      if-state (verified_for_other user_id registered) _ _ s refl
        (continue-state (tolerate m (get_by_current_email email s)) _ s (λ owner. refl)))

pub set_primary_email-eq-ok :
    (m : ServiceError → Bool) (user_id new : String) (now : ℕ) (u : User) (s t : Registry)
    (account : AccountIdentity)
    → get_by_id user_id s ≡ ok (some u)
    → (lower (address_of u) == lower (trim new)) ≡ false
    → set_primary_email m user_id new now s ≡ (ok account, t)
    → (s.emails_fault ≡ none)
      × (t ≡ moved (text_or_empty u.id) (trim new) now s)
      × (is_set (text_or_empty u.id) ≡ true)
      × (account ≡ identity u (trim new))
unfolding set_primary_email
set_primary_email-eq-ok m user_id new now u s t account found differs h =
    let (_, rest) =
      throw_if-eq-ok (not (is_email (trim new))) (Errors.bad_request "Invalid email address.")
        (reads (get_by_id user_id) >>= λ row. change_user m row (trim new) now) s t account h in
    let (row, seen, rest) = >>=-eq-ok _ (reads (get_by_id user_id)) s t account rest in
    let same : row ≡ some u = ok-injective (sym seen ∙ found) in
    let (set, rest) =
      throw_if-eq-ok (not (is_set (text_or_empty u.id))) _ _ s t account (rw same at rest) in
    let rest = rw (change_address, differs) at rest in
    let (claimed, _, rest) =
      >>=-eq-ok _ (is_claimed_by_other m (trim new) (text_or_empty u.id)) s t account rest in
    let (_, rest) = throw_if-eq-ok claimed _ _ _ t account rest in
    let (up, there, name) = move_to-eq-ok u (trim new) now _ t account rest in
    let quiet = is_claimed_by_other-state m (trim new) (text_or_empty u.id) s in
    (rw quiet at up, rw quiet at there, not-false _ set, name)

pub read-ok :
    {A : Type 0} (fault : Option ServiceError) (a b : A)
    → fault ≡ none
    → a ≡ b
    → read fault a ≡ ok b
read-ok fault a b f e = rw (f, e) refl

pub load-registered :
    (m : ServiceError → Bool) (a : String) (s : Registry) (row : UserEmail)
    → s.emails_fault ≡ none
    → s.emails (lower a) ≡ some row
    → load m a s ≡ (if row.is_verified then hydrate m row.user_id s else ok none)
unfolding load get
load-registered m a s row f e =
    ap (λ r. Errors.◌>>=◌ (tolerate m r) (load_from m a s))
      (read-ok s.emails_fault (s.emails (lower a)) (some row) f e)

-- A change that keeps the tested column keeps the row that is found.
pub first-map :
    (p : User → Bool) (f : User → User) (us : List User)
    → ((u : User) → p (f u) ≡ p u)
    → first p (map f us) ≡ Option.map f (first p us)
unfolding first
first-map p f [] h = refl
first-map p f (u ∷ us) h = elim (Bool-cases (p u)) [
  | inl e ↦ rw (map, first, h u, e) refl
  | inr e ↦ rw (map, first, h u, e) (first-map p f us h)
]

revoked-excepted : (user_id : String) (row : UserEmail) → revoked user_id true row ≡ row
revoked-excepted user_id row = elim (Bool-cases (row.user_id == user_id)) [
  | inl e ↦ rw e refl
  | inr e ↦ rw e refl
]

module _ (user_id email : String) (now : ℕ) (s : Registry) where
  pub moved-new :
      (moved user_id email now s).emails (lower email)
      ≡ some (claimed_row user_id now (s.emails (lower email)))
  unfolding revoke_all_verified set_current_email
  moved-new =
      rw
        (
          update-same s.emails (lower email)
              (some (claimed_row user_id now (s.emails (lower email)))),
          eq_refl (lower email),
        )
        (ap some (revoked-excepted user_id (claimed_row user_id now (s.emails (lower email)))))

  pub moved-other :
      (k : String) (row : UserEmail)
      → k ≢ lower email
      → s.emails k ≡ some row
      → (moved user_id email now s).emails k ≡ some (revoked user_id false row)
  unfolding revoke_all_verified set_current_email
  moved-other k row h e =
      rw
        (
          update-other s.emails (lower email)
              (some (claimed_row user_id now (s.emails (lower email)))) k h,
          e,
          ≢-differ k (lower email) h,
        )
        refl
