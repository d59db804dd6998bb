-- ===== src/Profile.antt =====
-- app/modules/users/profile_service.py: the account area.
pub mod Models
pub mod Account
pub mod Service
pub mod Protected
pub mod Limits
