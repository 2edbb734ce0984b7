-- ===== src/Collect.antt =====
-- The collection of AWS resources: the pages of one list call, the regions of one collector, the
-- inventory of one account, and the accounts of one scheduled run.
pub mod Pages
pub mod Regions
pub mod Inventory
pub mod Batch
mod Tests
