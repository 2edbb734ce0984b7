-- ===== src/Credential.antt =====
-- Credentials: packages/backend-services/src/credential, the credential DAOs of
-- packages/backend-data/src/dao, and what assumes roles along a chain.
pub mod Model
pub mod Vault
pub mod Table
pub mod Cache
pub mod Chain
pub mod Store
pub mod Walker
pub mod Tests
