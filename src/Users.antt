-- ===== src/Users.antt =====
-- app/modules/users: accounts, roles and permissions.
pub mod Models
pub mod Grants
