-- ===== src/Forms.antt =====
-- The logic of the entry forms.
pub mod Texts
pub mod Times
pub mod Reasons
pub mod Refuel
pub mod Repair
pub mod Ticket
pub mod Car
