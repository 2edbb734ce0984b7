-- ===== src/Base/Lists.antt =====
-- Lists measured by native numbers, and predicates on lists by recursion.
use Prim.Native.Nat.{ℕ, zero, suc, ◌+◌}
use mathlib.Core.Path.{◌≡◌, refl, sym, ap, ◌∙◌}
use mathlib.Core.Logic.{inl, inr}
use aws_access_bridge.Base.Tests.{Bool-cases}
use mathlib.Core.Bool.{Bool, true, false, not, ◌||◌}
use mathlib.Core.Option.{Option, none, some}
use mathlib.Core.List.{List, [], ◌∷◌, ◌++◌, map}
use native.Mathlib.Omega.{arith}

module _ {ℓ} {A : Type ℓ} where
  abbrev pub length : List A → ℕ
  length [] = 0
  length (x ∷ xs) = suc (length xs)

  abbrev pub get_elem? : List A → ℕ → Option A
  get_elem? [] i = none
  get_elem? (x ∷ xs) zero = some x
  get_elem? (x ∷ xs) (suc i) = get_elem? xs i

  abbrev pub any : (A → Bool) → List A → Bool
  any p [] = false
  any p (x ∷ xs) = p x || any p xs

  pub length-append : (xs ys : List A) → length (xs ++ ys) ≡ length xs + length ys
  length-append [] ys = omega arith
  length-append (x ∷ xs) ys = omega (arith, length-append xs ys)

  -- The elements that pass, in order.
  abbrev pub keep_if : (A → Bool) → List A → List A
  keep_if p [] = []
  keep_if p (x ∷ xs) = let rest = keep_if p xs in elim (p x) [ true ↦ x ∷ rest | false ↦ rest ]

module _ {ℓ} {A : Type ℓ} (p : A → Bool) where
  pub any-append : (xs ys : List A) → any p (xs ++ ys) ≡ (any p xs || any p ys)
  any-append [] ys = refl
  any-append (x ∷ xs) ys = elim (Bool-cases (p x)) [
    | inl e ↦ rw e refl
    | inr e ↦ rw e (any-append xs ys)
  ]

  pub keep_if-take : (x : A) (xs : List A) → p x ≡ true → keep_if p (x ∷ xs) ≡ x ∷ keep_if p xs
  keep_if-take x xs h = rw (keep_if, h) refl

  pub keep_if-skip : (x : A) (xs : List A) → p x ≡ false → keep_if p (x ∷ xs) ≡ keep_if p xs
  keep_if-skip x xs h = rw (keep_if, h) refl

  -- Two filters that share no element.
  pub keep_if-apart :
      (q : A → Bool) (xs : List A)
      → ((x : A) → p x ≡ true → q x ≡ false)
      → keep_if q (keep_if p xs) ≡ []
  keep_if-apart q [] h = refl
  keep_if-apart q (x ∷ xs) h = elim (Bool-cases (p x)) [
    | inl e ↦ rw (keep_if, e, keep_if, h x e) (keep_if-apart q xs h)
    | inr e ↦ rw (keep_if, e) (keep_if-apart q xs h)
  ]

  -- A filter that keeps what passes the test.
  pub any-keep_if :
      (q : A → Bool) (xs : List A)
      → ((x : A) → p x ≡ true → q x ≡ true)
      → any p (keep_if q xs) ≡ any p xs
  any-keep_if q [] h = refl
  any-keep_if q (x ∷ xs) h = elim (Bool-cases (p x)) [
    | inl e ↦ rw (keep_if, h x e, any, e) refl
    | inr e ↦ elim (Bool-cases (q x)) [
      | inl k ↦ rw (keep_if, k, any, e) (any-keep_if q xs h)
      | inr k ↦ rw (keep_if, k, any, e) (any-keep_if q xs h)
    ]
  ]

  pub any-keep_if-not : (xs : List A) → any p (keep_if (λ x. not (p x)) xs) ≡ false
  any-keep_if-not [] = refl
  any-keep_if-not (x ∷ xs) = elim (Bool-cases (p x)) [
    | inl e ↦ rw (keep_if, e) (any-keep_if-not xs)
    | inr e ↦ rw (keep_if, e, any, e) (any-keep_if-not xs)
  ]

module _ {ℓ κ} {A : Type ℓ} (P : A → Type κ) where
  abbrev pub All : List A → Type κ
  All [] = Unit
  All (x ∷ xs) = P x × All xs

  pub All-snoc : (xs : List A) (x : A) → All xs → P x → All (xs ++ x ∷ [])
  All-snoc [] x h p = (p, tt)
  All-snoc (y ∷ xs) x (q, h) p = (q, All-snoc xs x h p)

module _ {ℓ κ ι} {A : Type ℓ} (P : A → Type κ) (Q : A → Type ι) where
  pub All-imp : (xs : List A) → ((x : A) → P x → Q x) → All P xs → All Q xs
  All-imp [] f h = tt
  All-imp (x ∷ xs) f (p, h) = (f x p, All-imp xs f h)

  pub All-and : (xs : List A) → All P xs → All Q xs → All (λ x. P x × Q x) xs
  All-and [] h k = tt
  All-and (x ∷ xs) (p, h) (q, k) = ((p, q), All-and xs h k)

module _ {ℓ} {A : Type ℓ} (p : A → Bool) where
  -- Filters that agree on the elements.
  pub keep_if-agree :
      (q : A → Bool) (xs : List A) → All (λ x. p x ≡ q x) xs → keep_if p xs ≡ keep_if q xs
  keep_if-agree q [] h = refl
  keep_if-agree q (x ∷ xs) (e, h) = elim (Bool-cases (q x)) [
    | inl k ↦
        keep_if-take p x xs (e ∙ k)
        ∙ ap (λ l. x ∷ l) (keep_if-agree q xs h)
        ∙ sym (keep_if-take q x xs k)
    | inr k ↦ keep_if-skip p x xs (e ∙ k) ∙ keep_if-agree q xs h ∙ sym (keep_if-skip q x xs k)
  ]

  pub keep_if-none : (xs : List A) → All (λ x. p x ≡ false) xs → keep_if p xs ≡ []
  keep_if-none [] h = refl
  keep_if-none (x ∷ xs) (e, h) = keep_if-skip p x xs e ∙ keep_if-none xs h

  pub none-keep_if : (xs : List A) → keep_if p xs ≡ [] → All (λ x. p x ≡ false) xs
  none-keep_if [] h = tt
  none-keep_if (x ∷ xs) h = elim (Bool-cases (p x)) [
    | inl e ↦ cc (sym (keep_if-take p x xs e) ∙ h)
    | inr e ↦ (e, none-keep_if xs (sym (keep_if-skip p x xs e) ∙ h))
  ]

pub append-eq-nil {ℓ} : {A : Type ℓ} (xs ys : List A) → xs ++ ys ≡ [] → (xs ≡ []) × (ys ≡ [])
append-eq-nil [] ys h = (refl, h)
append-eq-nil (x ∷ xs) ys h = cc

pub map-eq-nil {ℓ κ} : {A : Type ℓ} {B : Type κ} (f : A → B) (xs : List A) → map f xs ≡ [] → xs ≡ []
map-eq-nil f [] h = refl
map-eq-nil f (x ∷ xs) h = cc
