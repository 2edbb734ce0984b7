-- ===== src/Credential/Tests.antt =====
-- The walks, the cache and the writes on concrete principals.
pub mod Data
mod Walks
mod Hops
mod Writes
