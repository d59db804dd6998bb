-- ===== src/Commissions.antt =====
-- app/modules/commissions: the money split and its laws.
pub mod Service
pub mod Split
