-- ===== src/Tests/Auth.antt =====
-- Sessions and tokens with a codec that can be run (backend/auth).
pub mod Codec
pub mod Access
mod Sessions
mod Users
mod Logout
mod Password
