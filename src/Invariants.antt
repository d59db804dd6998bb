-- ===== src/Invariants.antt =====
-- Invariants of the whole database under the calls of the services.
pub mod History
pub mod Exclusive
pub mod Ledger
