-- ===== src/Collect/Tests.antt =====
-- A list of two pages, an account of two types, and a batch of two principals.
use aws_access_bridge.Base.{
  ℕ, zero, suc, String, ◌≡◌, refl, none, some, List, [], ◌∷◌, true, false, any, arith, ◌==◌,
  if◌then◌else◌,
}
use aws_access_bridge.Base.Errors.{ServiceError, ok, err, plain_error}
use aws_access_bridge.Collect.Pages.{Fetch, paginate, paginate_from}
use aws_access_bridge.Collect.Pages.Listing.{AnswersFrom, paginate-AnswersFrom}
use aws_access_bridge.Collect.Inventory.{
  ResourceDiscoveryItem, ResourceInventoryItem, Collector, same_key, collect_for_account,
}
use aws_access_bridge.Collect.Inventory.Keys.{has}
use aws_access_bridge.Collect.Inventory.Kept.{collect_for_account-kept}
use aws_access_bridge.Collect.Batch.{
  Config, Collection, Tally, handle_scheduled_task, collect_batch, collect_principal,
  update_last_attempt_time,
}
use aws_access_bridge.Collect.Batch.Due.{makes_due, handle_scheduled_task-stamps}

abbrev partial_list : ServiceError
partial_list = plain_error "refusing to return a partial list"

abbrev two_pages : Fetch ℕ
two_pages zero token = ok (7, some "t")
two_pages (suc n) token = ok (8, none)

both_pages : paginate two_pages partial_list ≡ ok (7 ∷ 8 ∷ [])
unfolding paginate paginate_from
both_pages = refl

-- A service that gives the same token again.
abbrev looping : Fetch ℕ
looping n token = ok (n, some "t")

loop_is_refused : paginate looping partial_list ≡ err partial_list
unfolding paginate paginate_from
loop_is_refused = refl

paginate-AnswersFrom_example :
    AnswersFrom two_pages partial_list 0 none [] (paginate two_pages partial_list)
paginate-AnswersFrom_example = paginate-AnswersFrom two_pages partial_list

abbrev item : String → String → String → ResourceDiscoveryItem
item type id region = record {
  resource_type = type;
  resource_id = id;
  resource_name = id;
  state = "active";
  region = region;
  metadata = "{}";
}

abbrev row : String → String → ResourceInventoryItem
row type id = record { aws_account_id = "1"; item = item type id "eu"; collected_at = 5 }

-- Instances cannot be read in one region; functions can in both, and there are none.
abbrev instances : Collector
instances = record {
  resource_type = "ec2";
  is_regional = true;
  collect = λ region.
      if region == "us" then err (plain_error "denied") else ok (item "ec2" "i-1" "eu" ∷ []);
}

abbrev functions : Collector
functions = record { resource_type = "lambda"; is_regional = true; collect = λ region. ok [] }

abbrev stored : List ResourceInventoryItem
stored = row "ec2" "i-2" ∷ row "lambda" "f-1" ∷ []

collect_for_account-kept_example :
    has
      (row "ec2" "i-2")
      (collect_for_account "1" 9 ("eu" ∷ "us" ∷ []) (instances ∷ functions ∷ []) stored).1
    ≡ true
unfolding has same_key
collect_for_account-kept_example =
    collect_for_account-kept "1" 9 ("eu" ∷ "us" ∷ []) (instances ∷ functions ∷ []) (row "ec2" "i-2")
      stored refl refl

abbrev first_arn : String
first_arn = "arn:aws:iam::123456789012:role/a"

-- The first principal cannot be resolved.
abbrev failing : Collection String
failing = record {
  collection_type = "cost";
  resolve_leaf_credentials =
      λ arn. if arn == first_arn then err (plain_error "gone") else ok "keys";
  collect = λ arn keys account. ok 3;
  attempt_fault = λ arn. none;
  collected_fault = λ arn. none;
  is_d1_daily_limit_error = λ e. none;
  now = 100;
}

abbrev due_configs : List Config
due_configs =
    record {
      principal_arn = first_arn;
      collection_type = "cost";
      last_collected_at = 0;
      last_attempt_at = 0;
      enabled = true;
    }
    ∷ []

abbrev one_failure : Tally
one_failure = record {
  succeeded_items = 0;
  failed_accounts = 1;
  configs =
      record {
        principal_arn = first_arn;
        collection_type = "cost";
        last_collected_at = 0;
        last_attempt_at = 100;
        enabled = true;
      }
      ∷ [];
}

handle_scheduled_task-stamps_example :
    any (makes_due failing 50 first_arn) one_failure.configs ≡ false
unfolding handle_scheduled_task collect_batch collect_principal update_last_attempt_time
handle_scheduled_task-stamps_example =
    handle_scheduled_task-stamps failing 50 48 (first_arn ∷ []) due_configs first_arn one_failure
      (omega arith) refl refl refl
