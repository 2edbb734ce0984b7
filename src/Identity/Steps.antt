-- ===== src/Identity/Steps.antt =====
-- Sequences of operations on the registry, by several accounts.
use aws_access_bridge.Base.{ℕ, String, ◌≡◌, ◌≢◌, some, Bool, true}
use aws_access_bridge.Base.Errors.{ServiceError}
use aws_access_bridge.Identity.Rows.{UserEmail, Registry, first}
use aws_access_bridge.Identity.Users.{ensure_user_email_exists}
use aws_access_bridge.Identity.Addresses.{set_primary_email, link_verified_email}
use aws_access_bridge.Identity.Keeping.{
  set_primary_email-Keeps, link_verified_email-Keeps, ensure-Keeps,
}

-- An operation of the account `user_id`, and the registries before and after it, whether it returns
-- or throws.
pub data Step (m : ServiceError → Bool) : String → Registry → Registry → Type 0 where
  sets_primary :
      (user_id new : String) (now : ℕ) (s : Registry)
      → Step m user_id s (set_primary_email m user_id new now s).1
  links :
      (user_id email : String) (now : ℕ) (s : Registry)
      → Step m user_id s (link_verified_email user_id email now s).1
  provisioned :
      (user_id new_id email : String) (s : Registry)
      → Step m user_id s (ensure_user_email_exists m new_id email s).1

-- Any number of operations, none of them of the account `holder`.
pub data Steps (m : ServiceError → Bool) (holder : String) : Registry → Registry → Type 0 where
  done : (s : Registry) → Steps m holder s s
  step :
      {s t r : Registry} (user_id : String)
      → user_id ≢ holder
      → Step m user_id s t
      → Steps m holder t r
      → Steps m holder s r

module _ (holder a : String) (row : UserEmail) (held : row.user_id ≡ holder)
    (verified : row.is_verified ≡ true) where
  Step-holder :
      (m : ServiceError → Bool) (user_id : String) (s t : Registry)
      → user_id ≢ holder
      → Step m user_id s t
      → s.emails a ≡ some row
      → t.emails a ≡ some row
  Step-holder m user_id s t o (sets_primary _ new now _) h =
      set_primary_email-Keeps holder a row held verified user_id o m new now s h
  Step-holder m user_id s t o (links _ email now _) h =
      link_verified_email-Keeps holder a row held verified user_id o email now s h
  Step-holder m user_id s t o (provisioned _ new_id email _) h =
      ensure-Keeps holder a row held verified m new_id email s h

-- A verified address stays verified, and stays with its account, through any sequence of address
-- changes, links and provisionings by other accounts, whichever of them succeed.
pub Steps-holder :
    (m : ServiceError → Bool) (holder a : String) (row : UserEmail) (s t : Registry)
    → row.user_id ≡ holder
    → row.is_verified ≡ true
    → s.emails a ≡ some row
    → Steps m holder s t
    → t.emails a ≡ some row
Steps-holder m holder a row s t held verified h (done _) = h
Steps-holder m holder a row s t held verified h (step {t = r} user_id o first rest) =
    Steps-holder m holder a row r t held verified
      (Step-holder holder a row held verified m user_id s r o first h) rest
