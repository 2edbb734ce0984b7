-- ===== src/Identity/Memo.antt =====
-- The resolutions that one scope remembers, and `setPrimaryEmail` of
-- packages/backend-services/src/identity/UserIdentityService.ts on them.
use aws_access_bridge.Base.{
  ℕ, String, ◌≡◌, refl, sym, Option, none, some, Bool, true, inl, inr, Bool-cases, is_set, ◌==◌,
  eq_iff, if◌then◌else◌,
}
use aws_access_bridge.Base.Errors.{ServiceError, Result, ok, err}
use aws_access_bridge.Base.Exec.{Exec}
use aws_access_bridge.Credential.Vault.{update}
use aws_access_bridge.Identity.Address.{trim}
use aws_access_bridge.Identity.Rows.{Registry}
use aws_access_bridge.Identity.Resolver.{
  AccountIdentity, Scope, load, resolve_account, resolve_from, remember,
}
use aws_access_bridge.Identity.Addresses.{set_primary_email}

-- The anchor's entry is dropped, and the new address's is written.
abbrev renewed : Registry → Scope → AccountIdentity → Scope
renewed t s account = record {
  registry = t;
  by_email =
      update (λ a. if account.anchor_email == a then none else s.by_email a) account.email
        (some (some account));
}

abbrev in_scope : Scope → Result AccountIdentity × Registry → Result AccountIdentity × Scope
in_scope s (err e, t) = (err e, record s { registry = t })
in_scope s (ok account, t) = (ok account, renewed t s account)

unfoldable pub change_in_scope :
    (ServiceError → Bool) → String → String → ℕ → Exec Scope AccountIdentity
change_in_scope m user_id new_email now s =
    in_scope s (set_primary_email m user_id new_email now s.registry)

module _ (m : ServiceError → Bool) where
  -- What is remembered is what the registry gives.
  abbrev IsFresh : Scope → Type 0
  IsFresh s =
      (a : String) (found : Option AccountIdentity)
      → s.by_email a ≡ some found
      → load m a s.registry ≡ ok found

  remember-IsFresh :
      (address : String) (s : Scope) (r : Result (Option AccountIdentity))
      → load m address s.registry ≡ r
      → IsFresh s
      → ((remember address s r).0 ≡ r) × IsFresh (remember address s r).1
  remember-IsFresh address s (err e) l fresh = (refl, fresh)
  remember-IsFresh address s (ok account) l fresh = (
    refl,
    λ a found h. elim (Bool-cases (address == a)) [
      | inl e ↦ let same = (eq_iff address a).0 e in cc (rw same at l, rw e at h)
      | inr e ↦ fresh a found (rw e at h)
    ],
  )

  resolve_from-IsFresh :
      (address : String) (s : Scope) (known : Option (Option AccountIdentity))
      → s.by_email address ≡ known
      → IsFresh s
      → ((resolve_from m address s known).0 ≡ load m address s.registry)
        × IsFresh (resolve_from m address s known).1
  resolve_from-IsFresh address s (some found) h fresh = (sym (fresh address found h), fresh)
  resolve_from-IsFresh address s none h fresh =
      remember-IsFresh address s (load m address s.registry) refl fresh

  -- With a memory that agrees with the registry, `resolveAccount` gives for an address what the
  -- registry gives for it without the blanks around it, errors included, and the memory agrees with
  -- the registry afterwards.
  resolve_account-load :
      (email : String) (s : Scope)
      → is_set (trim email) ≡ true
      → IsFresh s
      → ((resolve_account m email s).0 ≡ load m (trim email) s.registry)
        × IsFresh (resolve_account m email s).1
  unfolding resolve_account
  resolve_account-load email s set fresh =
      rw set (resolve_from-IsFresh (trim email) s (s.by_email (trim email)) refl fresh)
