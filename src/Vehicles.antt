-- ===== src/Vehicles.antt =====
-- app/modules/vehicles: the data and the service, with what is proved of them.
pub mod Models
pub mod Filter
pub mod Pages
pub mod Views
pub mod Service
pub mod Sound
pub mod Details
pub mod Found
pub mod Comparison
