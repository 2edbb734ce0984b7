-- ===== src/Collect/Regions.antt =====
-- `collectAllRegions` of packages/backend-services/src/aws/collectors/BaseAwsCollector.ts. The
-- collection of one region is a parameter; the regions do not depend on one another.
use aws_access_bridge.Base.{String, List, [], ◌∷◌, ◌++◌, Bool, true, false}
use aws_access_bridge.Base.Errors.{ServiceError, Result, ok, err, ◌>>=◌}

pub record FailedRegion : Type 0 where
  pub region : String
  pub reason : ServiceError

-- `CollectorSweepResult`; the reason is kept as the error whose message it is.
pub record CollectorSweepResult (Item : Type 0) : Type 0 where
  pub items : List Item
  pub succeeded_regions : List String
  pub failed_regions : List FailedRegion

abbrev pub global_region : String
global_region = "global"

module _ {Item : Type 0} where
  -- One entry of the settled regions, put before what the later ones give.
  abbrev pub tally :
      String → Result (List Item) → CollectorSweepResult Item → CollectorSweepResult Item
  tally region (ok found) rest = record rest {
    items = found ++ rest.items;
    succeeded_regions = region ∷ rest.succeeded_regions;
  }
  tally region (err e) rest = record rest {
    failed_regions = record { region = region; reason = e } ∷ rest.failed_regions;
  }

  unfoldable pub sweep : (String → Result (List Item)) → List String → CollectorSweepResult Item
  sweep collect [] = record { items = []; succeeded_regions = []; failed_regions = [] }
  sweep collect (region ∷ regions) = tally region (collect region) (sweep collect regions)

  unfoldable pub collect_all_regions :
      Bool → (String → Result (List Item)) → List String → Result (CollectorSweepResult Item)
  collect_all_regions true collect regions = ok (sweep collect regions)
  collect_all_regions false collect regions = collect global_region >>= λ items.
      ok (record { items = items; succeeded_regions = global_region ∷ []; failed_regions = [] })
