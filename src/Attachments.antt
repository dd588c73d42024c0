-- ===== src/Attachments.antt =====
-- Attached files: frontend/src/attachments.
pub mod Downscale
pub mod Prepare
pub mod Upload
pub mod Viewer
pub mod PdfSlide
pub mod Picker
pub mod PdfPages
