-- ===== src/Content.antt =====
-- app/modules/content and app/modules/charging: articles and the charging directory.
pub mod Models
pub mod Service
