-- ===== src/Cost/Laws.antt =====
-- What the summary of costs holds.
use aws_access_bridge.Base.{
  String, ◌≡◌, ◌≢◌, sym, ap, ◌∙◌, none, some, List, [], Bool, true, false, ◌==◌, eq_iff, any,
  keep_if-apart, and-true, ◌&&◌, Bool-cases, inl, inr,
}
use mathlib.Core.Bool.{true≢false}
use aws_access_bridge.Owner.{Owner, owner_clause}
use aws_access_bridge.Access.{Grant}
use aws_access_bridge.Cost.{
  CostData, CostSummary, nothing, rounded, round, get_cost_data_for_owner, get_summary,
}
use aws_access_bridge.Cost.Tallies.{
  of_account, IsIn, sum, entry_of, tally-accounts, tally-grand_total, currency_after-only,
  currency_after-shared,
}

-- Whether the owner may assume a role in the account.
abbrev pub has_role_in : Owner → List Grant → String → Bool
has_role_in o grants a =
    any (λ g. owner_clause o g.user_id g.user_email && g.aws_account_id == a) grants

module _ {Amount : Type 0} where
  module _ (zero : Amount) (plus : Amount → Amount → Amount)
      (times_100 math_round over_100 : Amount → Amount) (o : Owner) (start_date end_date : String)
      (grants : List Grant) (rows : List (CostData Amount)) where
    abbrev pub selected : List (CostData Amount)
    selected = get_cost_data_for_owner o start_date end_date grants rows

    abbrev pub summary : CostSummary Amount
    summary = get_summary times_100 math_round over_100 zero plus o start_date end_date grants rows

    not_selected : (a : String) → has_role_in o grants a ≡ false → of_account a selected ≡ []
    unfolding get_cost_data_for_owner
    not_selected a h =
        keep_if-apart _ (λ d. d.aws_account_id == a) rows
          (λ d seen. elim (Bool-cases (d.aws_account_id == a)) [
            | inr e ↦ e
            | inl e ↦
                let (mine, _) = and-true _ _ seen in
                let granted : has_role_in o grants d.aws_account_id ≡ true =
                  (and-true _ _ mine).0 in
                let there : has_role_in o grants a ≡ true =
                  rw ((eq_iff d.aws_account_id a).0 e) at granted in
                absurd (true≢false (sym there ∙ h))
          ])

    -- An account in which the owner may assume no role is not in the summary. Of the rows that the
    -- owner may see in the window: an account is in the summary where it has such a row, with its
    -- rows' costs added up from 0 in their order and rounded at the end, and the currency of its
    -- first row; the grand total is the sum over all these rows, rounded; and the summary names a
    -- currency exactly where there are such rows and all are in that currency.
    pub get_summary-selected :
        ((a : String) → has_role_in o grants a ≡ false → summary.accounts a ≡ none)
        × ((a : String)
            → summary.accounts a
              ≡ rounded times_100 math_round over_100 (entry_of zero plus (of_account a selected)))
        × (summary.grand_total ≡ round times_100 math_round over_100 (sum zero plus zero selected))
        × ((c : String) → summary.currency ≡ some c → (selected ≢ []) × IsIn c selected)
        × ((c : String) → selected ≢ [] → IsIn c selected → summary.currency ≡ some c)
    unfolding get_summary
    get_summary-selected = (
      λ a h. ap (rounded times_100 math_round over_100) (
          tally-accounts zero plus a (nothing zero) selected
          ∙ ap (entry_of zero plus) (not_selected a h)),
      λ a.
          ap (rounded times_100 math_round over_100)
            (tally-accounts zero plus a (nothing zero) selected),
      ap (round times_100 math_round over_100)
          (tally-grand_total zero plus (nothing zero) selected),
      λ c. currency_after-only zero plus c selected,
      λ c. currency_after-shared zero plus c selected,
    )
