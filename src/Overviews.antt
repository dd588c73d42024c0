-- ===== src/Overviews.antt =====
-- The overviews of refuels, repairs and tickets, the detail page of a car and the dashboard, in
-- frontend/src/routes/_authenticated.
pub mod Filter
pub mod Dashboard
pub mod Paging
pub mod CarDetail
