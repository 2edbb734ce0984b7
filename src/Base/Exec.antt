-- ===== src/Base/Exec.antt =====
-- Code that changes a store and may throw. What was written before a throw stays written, so the
-- store comes back beside the error too.
use mathlib.Core.Path.{◌≡◌, refl}
use mathlib.Core.Bool.{Bool, true, false}
use aws_access_bridge.Base.Tests.{if◌then◌else◌}
use aws_access_bridge.Base.Errors.{ServiceError, Result, ok, err}

abbrev pub Exec {ℓ} : Type ℓ → Type ℓ → Type ℓ
Exec S A = S → Result A × S

module _ {ℓ} {S A : Type ℓ} where
  abbrev pub pure : A → Exec S A
  pure a s = (ok a, s)

  abbrev pub throw : ServiceError → Exec S A
  throw e s = (err e, s)

  abbrev pub lift : Result A → Exec S A
  lift r s = (r, s)

  abbrev gets : (S → A) → Exec S A
  gets f s = (ok (f s), s)

abbrev pub modify : {S : Type 0} → (S → S) → Exec S (Unit {0})
modify f s = (ok tt, f s)

-- `if (b) throw e;`
abbrev pub throw_if : {S : Type 0} → Bool → ServiceError → Exec S (Unit {0})
throw_if true e s = (err e, s)
throw_if false e s = (ok tt, s)

module _ {ℓ} {S A B : Type ℓ} where
  abbrev pub continue : Result A → (A → Exec S B) → S → Result B × S
  continue (ok a) f s = f a s
  continue (err e) f s = (err e, s)

  infixl 5 ◌>>=◌
  abbrev pub ◌>>=◌ : Exec S A → (A → Exec S B) → Exec S B
  ◌>>=◌ m f s = let (r, s') = m s in continue r f s'

infixr 5 ◌>>◌
abbrev pub ◌>>◌ : {S B : Type 0} → Exec S (Unit {0}) → Exec S B → Exec S B
m >> n = m >>= λ _. n

-- `try { m } catch (e) { handler(e) }`
abbrev pub recover {ℓ} : {S A : Type ℓ} → Result A → (ServiceError → Exec S A) → Exec S A
recover (ok a) f s = (ok a, s)
recover (err e) f s = f e s

abbrev pub try_catch {ℓ} : {S A : Type ℓ} → Exec S A → (ServiceError → Exec S A) → Exec S A
try_catch m f s = let (r, s') = m s in recover r f s'

-- Where it throws, it has changed nothing.
abbrev pub IsAtomic : {S A : Type 0} → Exec S A → Type 0
IsAtomic {S} m = (s : S) (e : ServiceError) → (m s).0 ≡ err e → (m s).1 ≡ s

pub throw_if-IsAtomic :
    {S A : Type 0} (b : Bool) (x : ServiceError) (m : Exec S A)
    → IsAtomic m
    → IsAtomic (throw_if b x >> m)
throw_if-IsAtomic true x m h s e p = refl
throw_if-IsAtomic false x m h s e p = h s e p

-- What never throws is atomic.
pub ok-IsAtomic :
    {S A : Type 0} (m : Exec S A) → ((s : S) → (a : A) × ((m s).0 ≡ ok a)) → IsAtomic m
ok-IsAtomic m h s e p = let (a, q) = h s in cc

pub throw_if-state : {S : Type 0} (b : Bool) (e : ServiceError) (s : S) → (throw_if b e s).1 ≡ s
throw_if-state true e s = refl
throw_if-state false e s = refl

module _ {S A B : Type 0} (f : A → Exec S B) where
  continue-eq-ok :
      (r : Result A) (s t : S) (b : B)
      → continue r f s ≡ (ok b, t)
      → (a : A) × (r ≡ ok a) × (f a s ≡ (ok b, t))
  continue-eq-ok (ok a) s t b h = (a, refl, h)
  continue-eq-ok (err e) s t b h = cc

  -- What returns has returned at each step.
  pub >>=-eq-ok :
      (m : Exec S A) (s t : S) (b : B)
      → (m >>= f) s ≡ (ok b, t)
      → (a : A) × ((m s).0 ≡ ok a) × (f a (m s).1 ≡ (ok b, t))
  >>=-eq-ok m s t b h = continue-eq-ok (m s).0 (m s).1 t b h

-- A guard that lets through.
pub throw_if-eq-ok :
    {S B : Type 0} (b : Bool) (e : ServiceError) (n : Exec S B) (s t : S) (x : B)
    → (throw_if b e >> n) s ≡ (ok x, t)
    → (b ≡ false) × (n s ≡ (ok x, t))
throw_if-eq-ok true e n s t x h = cc
throw_if-eq-ok false e n s t x h = (refl, h)

-- What reads changes nothing.
abbrev IsRead : {S A : Type 0} → Exec S A → Type 0
IsRead {S} m = (s : S) → (m s).1 ≡ s

pub continue-state :
    {S A B : Type 0} (r : Result A) (f : A → Exec S B) (s : S)
    → ((a : A) → (f a s).1 ≡ s)
    → (continue r f s).1 ≡ s
continue-state (ok a) f s h = h a
continue-state (err e) f s h = refl

pub if-state :
    {S A : Type 0} (b : Bool) (m n : Exec S A) (s : S)
    → (m s).1 ≡ s
    → (n s).1 ≡ s
    → ((if b then m else n) s).1 ≡ s
if-state true m n s h k = h
if-state false m n s h k = k

>>=-state :
    {S A B : Type 0} (m : Exec S A) (f : A → Exec S B) (s : S)
    → (m s).1 ≡ s
    → ((a : A) → (f a s).1 ≡ s)
    → ((m >>= f) s).1 ≡ s
>>=-state m f s h k = rw h (continue-state (m s).0 f s k)

continue-IsAtomic :
    {S A B : Type 0} (r : Result A) (f : A → Exec S B)
    → ((a : A) → IsAtomic (f a))
    → IsAtomic (continue r f)
continue-IsAtomic (ok a) f h s e p = h a s e p
continue-IsAtomic (err x) f h s e p = refl

-- What starts with a read.
pub >>=-IsAtomic :
    {S A B : Type 0} (m : Exec S A) (f : A → Exec S B)
    → IsRead m
    → ((a : A) → IsAtomic (f a))
    → IsAtomic (m >>= f)
>>=-IsAtomic m f h k s e p = rw (h s) (continue-IsAtomic (m s).0 f k s e (rw (h s) at p))

-- What holds before it holds after, whether it returns or throws.
module _ {S : Type 0} (P : S → Type 0) where
  abbrev pub Preserves : {A : Type 0} → Exec S A → Type 0
  Preserves m = (s : S) → P s → P (m s).1

  continue-Preserves :
      {A B : Type 0} (r : Result A) (f : A → Exec S B)
      → ((a : A) → Preserves (f a))
      → Preserves (continue r f)
  continue-Preserves (ok a) f k = k a
  continue-Preserves (err e) f k = λ s h. h

  pub >>=-Preserves :
      {A B : Type 0} (m : Exec S A) (f : A → Exec S B)
      → Preserves m
      → ((a : A) → Preserves (f a))
      → Preserves (m >>= f)
  >>=-Preserves m f h k s e = continue-Preserves (m s).0 f k (m s).1 (h s e)

  pub >>-Preserves :
      {B : Type 0} (m : Exec S (Unit {0})) (n : Exec S B)
      → Preserves m
      → Preserves n
      → Preserves (m >> n)
  >>-Preserves m n h k = >>=-Preserves m (λ _. n) h (λ _. k)

  pub throw_if-Preserves : (b : Bool) (e : ServiceError) → Preserves (throw_if b e)
  throw_if-Preserves true e s h = h
  throw_if-Preserves false e s h = h
