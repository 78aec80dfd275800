-- ===== src/Identity.antt =====
-- Sessions (backend/services/identity): tokens, their rotation, and the lock on guessed passwords.
pub mod Tokens
pub mod Rotation
pub mod Attempts
pub mod Users
pub mod Sessions
