-- ===== src/Cost/Tests.antt =====
-- The costs of two accounts in two currencies; amounts are in cents.
use aws_access_bridge.Base.{
  ℕ, String, ◌≡◌, ◌≢◌, refl, Option, none, some, List, [], ◌∷◌, false, ◌+◌,
}
use aws_access_bridge.Owner.{Owner, owner_clause}
use aws_access_bridge.Access.{Grant}
use aws_access_bridge.Cost.{
  CostData, CostSummary, get_cost_data_for_owner, get_summary, tally, rounded,
}
use aws_access_bridge.Cost.Tallies.{of_account, IsIn, sum, entry_of}
use aws_access_bridge.Cost.Laws.{has_role_in, get_summary-selected}

abbrev ann : Owner
ann = record { user_id = some "u1"; anchor_email = "ann@a.io" }

abbrev grant_of : String → Option String → Grant
grant_of account id = record {
  user_email = "ann@a.io";
  user_id = id;
  aws_account_id = account;
  role_name = "Reader";
  hidden = false;
}

abbrev two_grants : List Grant
two_grants = grant_of "111111111111" (some "u1") ∷ grant_of "222222222222" none ∷ []

abbrev cost : String → String → ℕ → String → CostData ℕ
cost account day amount currency = record {
  aws_account_id = account;
  period_start = day;
  total_cost = amount;
  currency = currency;
}

abbrev costs : List (CostData ℕ)
costs =
    cost "111111111111" "2026-01-01" 150 "USD"
    ∷ cost "111111111111" "2026-01-02" 250 "USD"
    ∷ cost "222222222222" "2026-01-01" 70 "EUR"
    ∷ cost "333333333333" "2026-01-01" 999 "USD"
    ∷ []

abbrev same : ℕ → ℕ
same n = n

abbrev january : List (CostData ℕ)
january = get_cost_data_for_owner ann "2026-01-01" "2026-01-31" two_grants costs

abbrev summary_to : String → CostSummary ℕ
summary_to end_date =
    get_summary same same same 0 (λ m n. m + n) ann "2026-01-01" end_date two_grants costs

-- The third account's costs are not counted.
january_total : (summary_to "2026-01-31").grand_total ≡ 470
unfolding get_summary tally get_cost_data_for_owner owner_clause
january_total = refl

two_currencies : (summary_to "2026-01-31").currency ≡ none
unfolding get_summary tally get_cost_data_for_owner owner_clause
two_currencies = refl

get_summary-selected_example :
    ((a : String)
      → has_role_in ann two_grants a ≡ false
      → (summary_to "2026-01-31").accounts a ≡ none)
    × ((a : String)
        → (summary_to "2026-01-31").accounts a
          ≡ rounded same same same (entry_of 0 (λ m n. m + n) (of_account a january)))
    × ((summary_to "2026-01-31").grand_total ≡ sum 0 (λ m n. m + n) 0 january)
    × ((c : String) → (summary_to "2026-01-31").currency ≡ some c → (january ≢ []) × IsIn c january)
    × ((c : String) → january ≢ [] → IsIn c january → (summary_to "2026-01-31").currency ≡ some c)
get_summary-selected_example =
    get_summary-selected 0 (λ m n. m + n) same same same ann "2026-01-01" "2026-01-31" two_grants
      costs
