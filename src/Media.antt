-- ===== src/Media.antt =====
-- app/modules/media and app/infrastructure/storage: uploads, and the photos made of them.
pub mod Models
pub mod Processor
pub mod Storage
pub mod Service
pub mod Ownership
