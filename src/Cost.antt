-- ===== src/Cost.antt =====
-- The summary of costs: `getSummary` of packages/backend-services/src/cost/CostService.ts
-- over `getCostDataForOwner` of packages/backend-data/src/dao/CostDataDAO.ts. A table is the list of
-- its rows, which stand in the order of the primary key, the account and the start of the period.
pub mod Tallies
pub mod Laws
mod Tests
use Prim.Native.String.{compare}
use text.Mathlib.Text.{is_le}
use aws_access_bridge.Base.{
  String, Option, none, some, List, [], ◌∷◌, Bool, true, false, not, ◌&&◌, ◌||◌, ◌==◌, any, keep_if,
  if◌then◌else◌,
}
use aws_access_bridge.Owner.{Owner, owner_clause}
use aws_access_bridge.Access.{Grant}
use aws_access_bridge.Credential.Vault.{update}

-- A row of `cost_data`, without its services.
pub record CostData (Amount : Type 0) : Type 0 where
  pub aws_account_id : String
  pub period_start : String
  pub total_cost : Amount
  pub currency : String

pub record AccountCostSummary (Amount : Type 0) : Type 0 where
  pub total_cost : Amount
  pub currency : String

pub record CostSummary (Amount : Type 0) : Type 0 where
  pub accounts : String → Option (AccountCostSummary Amount)
  pub grand_total : Amount
  pub currency : Option String

-- The variables of the loop.
pub record Tally (Amount : Type 0) : Type 0 where
  pub accounts : String → Option (AccountCostSummary Amount)
  pub grand_total : Amount
  pub first_currency : Option String
  pub currencies_disagree : Bool

abbrev first_of : Option String → String → Option String
first_of none currency = some currency
first_of (some c) currency = some c

abbrev disagrees : Option String → String → Bool
disagrees none currency = false
disagrees (some c) currency = not (c == currency)

module _ {Amount : Type 0} where
  -- Days are texts, compared as SQLite compares texts.
  unfoldable pub get_cost_data_for_owner :
      Owner → String → String → List Grant → List (CostData Amount) → List (CostData Amount)
  get_cost_data_for_owner o start_date end_date grants rows =
      keep_if
        (λ d.
          any (λ g. owner_clause o g.user_id g.user_email && g.aws_account_id == d.aws_account_id)
            grants
          && is_le (compare start_date d.period_start)
          && is_le (compare d.period_start end_date))
        rows

  abbrev pub entry :
      Amount → String → Option (AccountCostSummary Amount) → AccountCostSummary Amount
  entry zero currency none = record { total_cost = zero; currency = currency }
  entry zero currency (some a) = a

  abbrev pub nothing : Amount → Tally Amount
  nothing zero = record {
    accounts = λ a. none;
    grand_total = zero;
    first_currency = none;
    currencies_disagree = false;
  }

  -- The numbers of JavaScript: 0 and `+`, and below `x * 100`, `Math.round` and `x / 100`.
  module _ (zero : Amount) (plus : Amount → Amount → Amount) where
    abbrev pub added : CostData Amount → AccountCostSummary Amount → AccountCostSummary Amount
    added d a = record a { total_cost = plus a.total_cost d.total_cost }

    abbrev pub count_row : Tally Amount → CostData Amount → Tally Amount
    count_row t d = record {
      accounts =
          update t.accounts d.aws_account_id
            (some (added d (entry zero d.currency (t.accounts d.aws_account_id))));
      grand_total = plus t.grand_total d.total_cost;
      first_currency = first_of t.first_currency d.currency;
      currencies_disagree = t.currencies_disagree || disagrees t.first_currency d.currency;
    }

    unfoldable pub tally : Tally Amount → List (CostData Amount) → Tally Amount
    tally t [] = t
    tally t (d ∷ ds) = tally (count_row t d) ds

  module _ (times_100 math_round over_100 : Amount → Amount) where
    -- `MoneyUtil.round`
    abbrev pub round : Amount → Amount
    round amount = over_100 (math_round (times_100 amount))

    abbrev pub rounded : Option (AccountCostSummary Amount) → Option (AccountCostSummary Amount)
    rounded none = none
    rounded (some a) = some (record a { total_cost = round a.total_cost })

    abbrev of_tally : Tally Amount → CostSummary Amount
    of_tally t = record {
      accounts = λ a. rounded (t.accounts a);
      grand_total = round t.grand_total;
      currency = if t.currencies_disagree then none else t.first_currency;
    }

    unfoldable pub get_summary :
        Amount
        → (Amount → Amount → Amount)
        → Owner
        → String
        → String
        → List Grant
        → List (CostData Amount)
        → CostSummary Amount
    get_summary zero plus o start_date end_date grants rows =
        of_tally (
          tally zero plus (nothing zero)
            (get_cost_data_for_owner o start_date end_date grants rows))
