-- ===== src/Audit.antt =====
-- app/modules/audit: the audit trail.
pub mod Models
pub mod Service
pub mod Redaction
