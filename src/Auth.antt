-- ===== src/Auth.antt =====
-- app/modules/auth: sessions, sign-in and tokens.
pub mod Models
pub mod Tokens
pub mod Sessions
pub mod Service
pub mod Decoding
pub mod Sound
pub mod Admission
pub mod Google
pub mod Linking
