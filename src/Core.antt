-- ===== src/Core.antt =====
-- app/core and the services that it stands on.
pub mod Errors
pub mod Config
pub mod Platform
pub mod Action
pub mod Startup
pub mod Production
pub mod Security
pub mod Signing
pub mod Keeps
pub mod Returns
pub mod Timed
pub mod Many
pub mod Closing
pub mod Ends
pub mod Leaves
