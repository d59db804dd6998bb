-- ===== src/Api.antt =====
-- app/core/sessions.py and app/api/deps.py: who a request comes from, and what it may do.
pub mod Cookies
pub mod Principals
pub mod Guards
