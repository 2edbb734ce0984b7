-- ===== src/Locales/Names.antt =====
-- Sets of names and lists of tokens, and the findings about the elements that fail a test.
use aws_access_bridge.Base.{
  ℕ, String, List, [], ◌∷◌, map, Bool, true, false, not, ◌&&◌, ◌||◌, ◌==◌, keep_if, length, nat_eq,
  ◌≡◌, ◌↔◌, refl, sym, ap, subst, ◌∙◌, All, All-imp, inl, inr, eq_iff, eq_refl, or-false, or-true,
  or-right, not-false, map-eq-nil, none-keep_if, keep_if-none, arith, Bool-cases, if-true, if-false,
  keep_if-skip, keep_if-take,
}
use aws_access_bridge.Locales.{has, differs_from, distinct}

-- What holds of the elements, by the test.
module _ (P : String → Type 0) where
  pub All-has : (xs : List String) → All P xs → (x : String) → has x xs ≡ true → P x
  All-has (y ∷ ys) (p, h) x e = elim (or-true _ _ e) [
    | inl k ↦ subst P ((eq_iff y x).0 k) p
    | inr k ↦ All-has ys h x k
  ]
  All-has [] h x e = cc

  pub has-All : (xs : List String) → ((x : String) → has x xs ≡ true → P x) → All P xs
  has-All [] f = tt
  has-All (y ∷ ys) f =
      (f y (rw (eq_refl y) refl), has-All ys (λ x e. f x (or-right (y == x) (has x ys) e)))

module _ {A : Type 0} {B : Type 0} (f : A → B) (p : A → Bool) where
  -- The findings about the elements that fail a test.
  pub none_found_iff :
      (xs : List A) → (map f (keep_if (λ x. not (p x)) xs) ≡ []) ↔ All (λ x. p x ≡ true) xs
  none_found_iff xs = (
    (λ h.
        All-imp (λ x. not (p x) ≡ false) (λ x. p x ≡ true) xs (λ x e. not-false (p x) e)
          (none-keep_if (λ x. not (p x)) xs (map-eq-nil f _ h))),
    (λ h. ap (map f) (
        keep_if-none (λ x. not (p x)) xs
          (All-imp (λ x. p x ≡ true) (λ x. not (p x) ≡ false) xs (λ x e. rw e refl) h))),
  )

same_numbers : (m n : ℕ) → not (nat_eq m n) ≡ false → m ≡ n
same_numbers m n h = ground arith

nat_eq_refl : (n : ℕ) → nat_eq n n ≡ true
nat_eq_refl n = ground arith

equal-differs_from :
    (expected actual : List String)
    → length expected ≡ length actual
    → differs_from expected actual ≡ false
    → expected ≡ actual
unfolding differs_from
equal-differs_from [] [] e h = refl
equal-differs_from [] (y ∷ ys) e h = absurd (omega (arith, e))
equal-differs_from (x ∷ xs) [] e h = cc
equal-differs_from (x ∷ xs) (y ∷ ys) e h =
    let lengths : length xs ≡ length ys = omega (arith, e) in
    let (first, rest) = or-false _ _ h in
    let tail = equal-differs_from xs ys lengths rest in
    ap (λ z. z ∷ xs) ((eq_iff x y).0 (not-false _ first)) ∙ ap (λ l. y ∷ l) tail

differs_from_refl : (tokens : List String) → differs_from tokens tokens ≡ false
unfolding differs_from
differs_from_refl [] = refl
differs_from_refl (x ∷ xs) = rw (eq_refl x) (differs_from_refl xs)

-- The comparison of the tokens of two values.
pub tokens_iff :
    (expected actual : List String)
    → ((not (nat_eq (length expected) (length actual)) || differs_from expected actual) ≡ false)
      ↔ (expected ≡ actual)
tokens_iff expected actual = (
  (λ h.
      let (lengths, tokens) = or-false _ _ h in
      equal-differs_from expected actual (same_numbers (length expected) (length actual) lengths)
        tokens),
  (λ e.
      subst (λ l. (not (nat_eq (length expected) (length l)) || differs_from expected l) ≡ false) e
        (rw (nat_eq_refl (length expected)) (differs_from_refl expected))),
)

pub and-rest : (a b : Bool) → (a && b) ≡ false → a ≡ true → b ≡ false
and-rest true b h e = h
and-rest false b h e = cc

pub and-none : (a b : Bool) → (a ≡ true → b ≡ false) → (a && b) ≡ false
and-none true b f = f refl
and-none false b f = refl

same_tests : (a b : Bool) → (a ≡ true → b ≡ true) → (b ≡ true → a ≡ true) → a ≡ b
same_tests true b f g = sym (f refl)
same_tests false true f g = g refl
same_tests false false f g = refl

-- The rule of `set.has`, for both sides.
pub same_names_iff :
    (xs ys : List String)
    → (All (λ x. has x ys ≡ true) xs × All (λ y. has y xs ≡ true) ys)
      ↔ ((x : String) → has x xs ≡ has x ys)
same_names_iff xs ys = (
  (λ h x.
      same_tests (has x xs) (has x ys) (All-has (λ x. has x ys ≡ true) xs h.0 x)
        (All-has (λ y. has y xs ≡ true) ys h.1 x)),
  (λ f. (
    has-All (λ x. has x ys ≡ true) xs (λ x e. sym (f x) ∙ e),
    has-All (λ y. has y xs ≡ true) ys (λ y e. f y ∙ e),
  )),
)

-- One filter for two.
keep_if-not_or :
    (p q : String → Bool) (xs : List String)
    → keep_if (λ x. not (p x || q x)) xs ≡ keep_if (λ x. not (q x)) (keep_if (λ x. not (p x)) xs)
keep_if-not_or p q [] = refl
keep_if-not_or p q (x ∷ xs) =
    let both = λ (x : String). not (p x || q x) in
    let rest = keep_if-not_or p q xs in
    elim (Bool-cases (p x)) [
      | inl e ↦
          keep_if-skip both x xs (rw e refl)
          ∙ rest
          ∙ ap (keep_if (λ x. not (q x))) (sym (keep_if-skip (λ x. not (p x)) x xs (ap not e)))
      | inr e ↦
          let kept = keep_if-take (λ x. not (p x)) x xs (ap not e) in
          elim (Bool-cases (q x)) [
            | inl k ↦
                keep_if-skip both x xs (rw (e, k) refl)
                ∙ rest
                ∙ sym (keep_if-skip (λ x. not (q x)) x _ (ap not k))
                ∙ ap (keep_if (λ x. not (q x))) (sym kept)
            | inr k ↦
                keep_if-take both x xs (rw (e, k) refl)
                ∙ ap (λ l. x ∷ l) rest
                ∙ sym (keep_if-take (λ x. not (q x)) x _ (ap not k))
                ∙ ap (keep_if (λ x. not (q x))) (sym kept)
          ]
    ]

keep_if-true : (xs : List String) → keep_if (λ x. true) xs ≡ xs
keep_if-true [] = refl
keep_if-true (x ∷ xs) = ap (λ l. x ∷ l) (keep_if-true xs)

-- The names of a list, each where it is met first.
abbrev pub each_once : List String → List String
each_once [] = []
each_once (n ∷ ns) = n ∷ keep_if (λ m. not (n == m)) (each_once ns)

-- What is met after some names were seen.
distinct-keep_if :
    (seen ns : List String) → distinct seen ns ≡ keep_if (λ m. not (has m seen)) (each_once ns)
distinct-keep_if seen [] = refl
distinct-keep_if seen (n ∷ ns) =
    let rest =
      distinct-keep_if (n ∷ seen) ns
      ∙ keep_if-not_or (λ m. n == m) (λ m. has m seen) (each_once ns) in
    elim (Bool-cases (has n seen)) [
      | inl e ↦ if-true _ _ _ e ∙ rest ∙ sym (keep_if-skip (λ m. not (has m seen)) n _ (ap not e))
      | inr e ↦
          if-false _ _ _ e
          ∙ ap (λ l. n ∷ l) rest
          ∙ sym (keep_if-take (λ m. not (has m seen)) n _ (ap not e))
    ]

pub distinct-each_once : (ns : List String) → distinct [] ns ≡ each_once ns
distinct-each_once ns = distinct-keep_if [] ns ∙ keep_if-true (each_once ns)
