-- ===== src/Cost/Tallies.antt =====
-- What the loop over the costs has after some rows, by the rows.
use aws_access_bridge.Base.{
  String, ◌≡◌, ◌≢◌, refl, sym, ap, ◌∙◌, Option, none, some, List, [], ◌∷◌, Bool, true, false, not,
  ◌||◌, ◌==◌, eq_iff, eq_refl, any, keep_if, All, Bool-cases, inl, inr, if◌then◌else◌,
}
use aws_access_bridge.Credential.Vault.{update-same, update-other}
use aws_access_bridge.Cost.{
  CostData, AccountCostSummary, Tally, tally, added, count_row, nothing, entry,
}

abbrev currency_of : Bool → Option String → Option String
currency_of b first = if b then none else first

or_nothing : (b : Bool) → (b || false) ≡ b
or_nothing true = refl
or_nothing false = refl

or_regroup : (a b c : Bool) → ((a || b) || c) ≡ (a || (b || c))
or_regroup true b c = refl
or_regroup false b c = refl

module _ {Amount : Type 0} where
  abbrev pub of_account : String → List (CostData Amount) → List (CostData Amount)
  of_account a = keep_if (λ d. d.aws_account_id == a)

  abbrev pub IsIn : String → List (CostData Amount) → Type 0
  IsIn c = All (λ d. d.currency ≡ c)

  IsIn-same :
      (c : String) (ds : List (CostData Amount))
      → any (λ d. not (c == d.currency)) ds ≡ false
      → IsIn c ds
  IsIn-same c [] h = tt
  IsIn-same c (d ∷ ds) h = elim (Bool-cases (c == d.currency)) [
    | inl e ↦ (sym ((eq_iff c d.currency).0 e), IsIn-same c ds (rw (any, e) at h))
    | inr e ↦ cc (rw (any, e) at h)
  ]

  same-IsIn :
      (c : String) (ds : List (CostData Amount))
      → IsIn c ds
      → any (λ d. not (c == d.currency)) ds ≡ false
  same-IsIn c [] h = refl
  same-IsIn c (d ∷ ds) (e, h) = rw (e, eq_refl c) (same-IsIn c ds h)

  module _ (zero : Amount) (plus : Amount → Amount → Amount) where
    abbrev pub sum : Amount → List (CostData Amount) → Amount
    sum n [] = n
    sum n (d ∷ ds) = sum (plus n d.total_cost) ds

    -- The entry of one account's rows, before it is rounded.
    abbrev pub entry_of : List (CostData Amount) → Option (AccountCostSummary Amount)
    entry_of [] = none
    entry_of (d ∷ ds) = some (record { total_cost = sum zero (d ∷ ds); currency = d.currency })

    abbrev entry_from :
        Option (AccountCostSummary Amount)
        → List (CostData Amount)
        → Option (AccountCostSummary Amount)
    entry_from none ds = entry_of ds
    entry_from (some a) ds =
        some (record { total_cost = sum a.total_cost ds; currency = a.currency })

    entry_from-[] : (o : Option (AccountCostSummary Amount)) → entry_from o [] ≡ o
    entry_from-[] none = refl
    entry_from-[] (some a) = refl

    entry_from-∷ :
        (o : Option (AccountCostSummary Amount)) (d : CostData Amount) (ds : List (CostData Amount))
        → entry_from o (d ∷ ds)
          ≡ entry_from
              (some (record {
                total_cost = plus (entry zero d.currency o).total_cost d.total_cost;
                currency = (entry zero d.currency o).currency;
              }))
              ds
    entry_from-∷ none d ds = refl
    entry_from-∷ (some a) d ds = refl

    count_row-same :
        (a : String) (t : Tally Amount) (d : CostData Amount)
        → d.aws_account_id ≡ a
        → (count_row zero plus t d).accounts a
          ≡ some (added zero plus d (entry zero d.currency (t.accounts a)))
    count_row-same a t d h = rw (sym h) (
        update-same t.accounts d.aws_account_id
          (some (added zero plus d (entry zero d.currency (t.accounts d.aws_account_id)))))

    pub tally-accounts :
        (a : String) (t : Tally Amount) (ds : List (CostData Amount))
        → (tally zero plus t ds).accounts a ≡ entry_from (t.accounts a) (of_account a ds)
    unfolding tally
    tally-accounts a t [] = sym (entry_from-[] (t.accounts a))
    tally-accounts a t (d ∷ ds) =
        let rest = tally-accounts a (count_row zero plus t d) ds in
        elim (Bool-cases (d.aws_account_id == a)) [
          | inl e ↦
              rw (keep_if, e)
                (rest
                  ∙ ap (λ o. entry_from o (of_account a ds))
                      (count_row-same a t d ((eq_iff d.aws_account_id a).0 e))
                  ∙ sym (entry_from-∷ (t.accounts a) d (of_account a ds)))
          | inr e ↦
              rw (keep_if, e)
                (rest
                  ∙ ap (λ o. entry_from o (of_account a ds))
                      (update-other t.accounts d.aws_account_id _ a
                        (λ h. cc (rw (h, eq_refl d.aws_account_id) at e))))
        ]

    pub tally-grand_total :
        (t : Tally Amount) (ds : List (CostData Amount))
        → (tally zero plus t ds).grand_total ≡ sum t.grand_total ds
    unfolding tally
    tally-grand_total t [] = refl
    tally-grand_total t (d ∷ ds) = tally-grand_total (count_row zero plus t d) ds

    -- The currency of the rest, when the first row had `c`.
    tally-currency :
        (c : String) (b : Bool) (t : Tally Amount) (ds : List (CostData Amount))
        → t.first_currency ≡ some c
        → t.currencies_disagree ≡ b
        → ((tally zero plus t ds).first_currency ≡ some c)
          × ((tally zero plus t ds).currencies_disagree
              ≡ (b || any (λ d. not (c == d.currency)) ds))
    unfolding tally
    tally-currency c b t [] f e = (f, e ∙ sym (or_nothing b))
    tally-currency c b t (d ∷ ds) f e =
        let (first, differ) =
          tally-currency c (b || not (c == d.currency)) (count_row zero plus t d) ds (rw f refl)
            (rw (f, e) refl) in
        (first, differ ∙ or_regroup b (not (c == d.currency)) _)

    abbrev currency_after : List (CostData Amount) → Option String
    currency_after ds =
        let t = tally zero plus (nothing zero) ds in
        currency_of t.currencies_disagree t.first_currency

    currency_after-∷ :
        (d : CostData Amount) (ds : List (CostData Amount))
        → currency_after (d ∷ ds)
          ≡ currency_of (any (λ x. not (d.currency == x.currency)) ds) (some d.currency)
    unfolding tally
    currency_after-∷ d ds =
        let (first, differ) =
          tally-currency d.currency false (count_row zero plus (nothing zero) d) ds refl refl in
        rw (first, differ) refl

    pub currency_after-only :
        (c : String) (ds : List (CostData Amount))
        → currency_after ds ≡ some c
        → (ds ≢ []) × IsIn c ds
    unfolding tally
    currency_after-only c [] h = cc
    currency_after-only c (d ∷ ds) h =
        let here = sym (currency_after-∷ d ds) ∙ h in
        elim (Bool-cases (any (λ x. not (d.currency == x.currency)) ds)) [
          | inl e ↦ cc (rw e at here)
          | inr e ↦
              let same : d.currency ≡ c = cc (rw e at here) in
              (λ n. cc n, (same, rw same at (IsIn-same d.currency ds e)))
        ]

    pub currency_after-shared :
        (c : String) (ds : List (CostData Amount))
        → ds ≢ []
        → IsIn c ds
        → currency_after ds ≡ some c
    currency_after-shared c [] n h = absurd (n refl)
    currency_after-shared c (d ∷ ds) n (e, h) =
        currency_after-∷ d ds ∙ rw (e, same-IsIn c ds h) refl
