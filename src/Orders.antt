-- ===== src/Orders.antt =====
-- app/modules/orders: the data and the service, with what is proved of them.
pub mod Models
pub mod Pricing
pub mod Idempotency
pub mod Documents
pub mod Creation
pub mod Transitions
pub mod Sound
pub mod Ownership
pub mod Replay
pub mod Listing
pub mod History
