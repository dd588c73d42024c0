-- ===== src/Money.antt =====
-- Amounts of money, as decimal strings.
pub mod Decimal
pub mod Monthly
