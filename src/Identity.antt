-- ===== src/Identity.antt =====
-- Identity: the account behind an address, and the addresses of an account.
pub mod Address
pub mod Rows
pub mod Emails
pub mod Users
pub mod Resolver
pub mod Addresses
pub mod Moves
pub mod Primary
pub mod Change
pub mod Taken
pub mod Keeping
pub mod Steps
pub mod Memo
mod Plan
mod Tests
