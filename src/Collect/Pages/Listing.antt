-- ===== src/Collect/Pages/Listing.antt =====
-- A walk over the pages returns the whole list or throws.
use aws_access_bridge.Base.{
  or-false, ℕ, zero, suc, ◌+◌, ◌≤◌, ◌<◌, String, ◌≡◌, refl, ap, ◌∙◌, Option, none, List, [], ◌∷◌,
  ◌++◌, ◌⊎◌, true, false, present, text_or_empty, inl, inr, Bool-cases, length, arith, leb→lt,
}
use aws_access_bridge.Base.Errors.{ServiceError, Result, ok, err, Result-cases}
use aws_access_bridge.Collect.Pages.{
  Fetch, is_exhausted, paginate_from, paginate, max_collection_pages,
}

append-snoc : {A : Type 0} (xs : List A) (x : A) (ys : List A) → (xs ++ x ∷ []) ++ ys ≡ xs ++ x ∷ ys
append-snoc [] x ys = refl
append-snoc (z ∷ xs) x ys = ap (λ zs. z ∷ zs) (append-snoc xs x ys)

module _ {Page : Type 0} (fetch : Fetch Page) where
  -- The pages from the call number `n` with a token to the one that has no next token.
  pub data Listing : ℕ → Option String → List Page → Type 0 where
    last :
        (n : ℕ) (token next : Option String) (page : Page)
        → fetch n token ≡ ok (page, next)
        → present next ≡ false
        → Listing n token (page ∷ [])
    more :
        (n : ℕ) (token next : Option String) (page : Page) (pages : List Page)
        → fetch n token ≡ ok (page, next)
        → present next ≡ true
        → Listing (suc n) next pages
        → Listing n token (page ∷ pages)

  module _ (partial : ServiceError) where
    -- What a walk may answer from the call number `n` on: the whole list within the ceiling, the
    -- refusal of a partial list, or the failure of one of its calls.
    abbrev pub AnswersFrom : ℕ → Option String → List Page → Result (List Page) → Type 0
    AnswersFrom n token pages (ok all) =
        (rest : List Page) × (all ≡ pages ++ rest)
        × Listing n token rest
        × (n + length rest ≤ max_collection_pages)
    AnswersFrom n token pages (err e) =
        (e ≡ partial) ⊎ ((m : ℕ) × (next : Option String) × (fetch m next ≡ err e))

    step-AnswersFrom :
        (n : ℕ) (token : Option String) (pages : List Page) (page : Page) (next : Option String)
        (r : Result (List Page))
        → fetch n token ≡ ok (page, next)
        → present next ≡ true
        → AnswersFrom (suc n) next (pages ++ page ∷ []) r
        → AnswersFrom n token pages r
    step-AnswersFrom n token pages page next (err e) f p h = h
    step-AnswersFrom n token pages page next (ok all) f p (rest, same, listing, few) = (
      page ∷ rest,
      same ∙ append-snoc pages page rest,
      more n token next page rest f p listing,
      omega (arith, few),
    )

    paginate_from-AnswersFrom :
        (fuel : ℕ) (token : Option String) (n : ℕ) (seen : List String) (pages : List Page)
        → n < max_collection_pages
        → fuel + n ≡ max_collection_pages
        → AnswersFrom n token pages (paginate_from fetch partial fuel token n seen pages)
    unfolding paginate_from
    paginate_from-AnswersFrom zero token n seen pages low e = absurd (omega (arith, low, e))
    paginate_from-AnswersFrom (suc fuel) token n seen pages low e =
        elim (Result-cases (fetch n token)) [
          | inr (x, f) ↦ rw f (inr (n, token, f))
          | inl ((page, next), f) ↦ elim (Bool-cases (present next)) [
            | inr p ↦ rw (f, p) (page ∷ [], refl, last n token next page f p, omega (arith, low))
            | inl p ↦ elim (Bool-cases (is_exhausted (suc n) seen (text_or_empty next))) [
              | inl x ↦ rw (f, p, x) (inl refl)
              | inr x ↦
                  rw (f, p, x)
                    (step-AnswersFrom n token pages page next _ f p (
                      paginate_from-AnswersFrom fuel next (suc n) (text_or_empty next ∷ seen)
                        (pages ++ page ∷ [])
                        (leb→lt max_collection_pages (suc n) (or-false _ _ x).0)
                        (omega (arith, e))))
            ]
          ]
        ]

    -- The walk over the pages of a list returns the pages of consecutive calls, from the one without
    -- a token to one that gives no token, at most fifty of them; or it throws the refusal of a
    -- partial list; or it throws what one of its calls has thrown.
    pub paginate-AnswersFrom : AnswersFrom 0 none [] (paginate fetch partial)
    unfolding paginate
    paginate-AnswersFrom =
        paginate_from-AnswersFrom max_collection_pages none 0 [] [] (omega arith) refl
