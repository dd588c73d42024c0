-- ===== src/Tables.antt =====
-- The tables of refuels, repairs and tickets, and the texts of their cells.
pub mod Units
pub mod Data
pub mod Rows
pub mod Overviews
pub mod Consumption
pub mod Laws
