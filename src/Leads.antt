-- ===== src/Leads.antt =====
-- app/modules/leads: enquiries and test drives.
pub mod Models
pub mod Service
pub mod Throttle
