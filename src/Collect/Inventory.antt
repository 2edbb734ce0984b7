-- ===== src/Collect/Inventory.antt =====
-- `collectForAccount` of apps/background/src/scheduled/ResourceInventoryCollectionTask.ts, and the
-- statements of packages/backend-data/src/dao/ResourceInventoryDAO.ts that it makes. The table is the
-- list of its rows.
pub mod Keys
pub mod Kept
pub mod Fresh
use aws_access_bridge.Base.{
  ℕ, ◌+◌, String, List, [], ◌∷◌, ◌++◌, Bool, true, false, not, ◌&&◌, ◌==◌, keep_if, length, nat_eq,
  ltb, if◌then◌else◌,
}
use aws_access_bridge.Base.Errors.{Result, ok, err}
use aws_access_bridge.Collect.Regions.{CollectorSweepResult, FailedRegion, collect_all_regions}

-- `ResourceDiscoveryItem`; the metadata is its text as it is stored.
pub record ResourceDiscoveryItem : Type 0 where
  pub resource_type : String
  pub resource_id : String
  pub resource_name : String
  pub state : String
  pub region : String
  pub metadata : String

pub record ResourceInventoryItem : Type 0 where
  pub aws_account_id : String
  pub item : ResourceDiscoveryItem
  pub collected_at : ℕ

-- The primary key of migrations/0030_squash.sql: account, type and identifier, without the region.
unfoldable pub same_key : ResourceInventoryItem → ResourceInventoryItem → Bool
same_key r s =
    r.aws_account_id == s.aws_account_id
    && r.item.resource_type == s.item.resource_type
    && r.item.resource_id == s.item.resource_id

-- `INSERT OR REPLACE`
unfoldable pub upsert_resource :
    ResourceInventoryItem → List ResourceInventoryItem → List ResourceInventoryItem
unfolding same_key
upsert_resource r rows = keep_if (λ s. not (same_key r s)) rows ++ r ∷ []

unfoldable pub is_stale : String → String → ℕ → ResourceInventoryItem → Bool
is_stale account type older_than r =
    r.aws_account_id == account && r.item.resource_type == type && ltb r.collected_at older_than

unfoldable pub delete_stale_resources :
    String → String → ℕ → List ResourceInventoryItem → List ResourceInventoryItem
unfolding is_stale
delete_stale_resources account type older_than rows =
    keep_if (λ r. not (is_stale account type older_than r)) rows

pub record Collector : Type 0 where
  pub resource_type : String
  pub is_regional : Bool
  pub collect : String → Result (List ResourceDiscoveryItem)

-- What the collectors have given: all items, and the types that were read in full.
pub record Reading : Type 0 where
  pub all_items : List ResourceDiscoveryItem
  pub collected_types : List String

abbrev no_failure : List FailedRegion → Bool
no_failure [] = true
no_failure (f ∷ fs) = false

abbrev is_complete : ℕ → CollectorSweepResult ResourceDiscoveryItem → Bool
is_complete expected sweep =
    nat_eq (length sweep.succeeded_regions) expected && no_failure sweep.failed_regions

-- One turn of the loop over the collectors, before what the later ones give.
abbrev pub read_one :
    String → ℕ → Result (CollectorSweepResult ResourceDiscoveryItem) → Reading → Reading
read_one type expected (err e) rest = rest
read_one type expected (ok sweep) rest = record {
  all_items = sweep.items ++ rest.all_items;
  collected_types =
      if is_complete expected sweep then type ∷ rest.collected_types else rest.collected_types;
}

abbrev pub expected_regions : Bool → List String → ℕ
expected_regions true regions = length regions
expected_regions false regions = 1

unfoldable pub read_collectors : List String → List Collector → Reading
read_collectors regions [] = record { all_items = []; collected_types = [] }
read_collectors regions (c ∷ cs) =
    read_one c.resource_type (expected_regions c.is_regional regions)
      (collect_all_regions c.is_regional c.collect regions) (read_collectors regions cs)

unfoldable pub store_items :
    String
    → ℕ
    → List ResourceDiscoveryItem
    → List ResourceInventoryItem
    → List ResourceInventoryItem
store_items account collected_at [] rows = rows
store_items account collected_at (i ∷ is) rows = store_items account collected_at is (
    upsert_resource (record { aws_account_id = account; item = i; collected_at = collected_at })
      rows)

unfoldable pub prune_types :
    String → ℕ → List String → List ResourceInventoryItem → List ResourceInventoryItem
prune_types account collected_at [] rows = rows
prune_types account collected_at (t ∷ ts) rows =
    prune_types account collected_at ts (delete_stale_resources account t collected_at rows)

-- The number of items, and the table.
unfoldable pub collect_for_account :
    String
    → ℕ
    → List String
    → List Collector
    → List ResourceInventoryItem
    → ℕ × List ResourceInventoryItem
unfolding read_collectors store_items prune_types
collect_for_account account collected_at regions collectors rows =
    let reading = read_collectors regions collectors in
    (
      length reading.all_items,
      prune_types account collected_at reading.collected_types
          (store_items account collected_at reading.all_items rows),
    )
