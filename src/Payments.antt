-- ===== src/Payments.antt =====
-- app/modules/payments: the data and the service, with what is proved of them.
pub mod Models
pub mod Events
pub mod Settlement
pub mod Webhook
pub mod Checkout
pub mod Gates
pub mod Approval
pub mod Safety
pub mod Unmoved
