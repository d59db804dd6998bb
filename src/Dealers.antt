-- ===== src/Dealers.antt =====
-- app/modules/dealers: the dealer directory.
pub mod Models
pub mod Service
