-- ===== src/Auth.antt =====
-- Signing in: frontend/src/auth.
pub mod ReturnTo
pub mod Session
pub mod Passkeys
