-- ===== src/Widgets.antt =====
-- Components of frontend/src/components that keep a state of their own.
pub mod TwoStepDelete
