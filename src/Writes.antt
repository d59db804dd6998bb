-- ===== src/Writes.antt =====
-- The atomic writes of the services, and the rule that a predicate closed under them is an invariant.
pub mod Closed
pub mod Orders
pub mod Payments
