-- ===== src/Client.antt =====
-- frontend/src/api/client.ts
pub mod Enums
pub mod Guards
pub mod Http
pub mod Query
pub mod Entries
pub mod Account
pub mod Calls
