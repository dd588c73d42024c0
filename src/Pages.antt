-- ===== src/Pages.antt =====
-- What the pages of frontend/src/routes do with the server and with the cached queries.
pub mod Cache
pub mod Keys
pub mod Entries
pub mod Cars
pub mod Account
pub mod Profile
pub mod Login
pub mod Passkeys
