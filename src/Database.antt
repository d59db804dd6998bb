-- ===== src/Database.antt =====
-- The document database: the driver as a parameter, and the collections.
pub mod With
pub mod Reads
pub mod Sorting
pub mod Mongo
pub mod Indexes
pub mod Collections
pub mod Memory
pub mod Bags
pub mod Rows
pub mod Matching
pub mod Keys
