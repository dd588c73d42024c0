-- ===== src/Tests.antt =====
-- The theorems applied to concrete inputs.
mod Client
mod Money
mod Dates
mod Auth
mod Attachments
mod Charts
mod Forms
mod EntryForms
mod QueryCache
mod Pages
mod Slides
mod Overviews
mod Paging
mod Tables
