-- ===== src/Tests.antt =====
-- Tests on a sample shop, and the theorems at concrete inputs.
pub mod Machine
pub mod Samples
pub mod Runs
pub mod Witnesses
pub mod Sales
pub mod Accounts
pub mod Catalog
pub mod Area
pub mod Console
pub mod Uploads
