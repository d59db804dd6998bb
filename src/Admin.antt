-- ===== src/Admin.antt =====
-- app/modules/admin/console.py: the super-admin console.
pub mod Filter
pub mod Console
pub mod Accepted
pub mod LastAdmin
pub mod Revocation
pub mod Barred
pub mod Inspection
pub mod Exposure
pub mod Overview
