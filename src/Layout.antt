-- ===== src/Layout.antt =====
-- internal/render/layout: a receipt as a document of positioned blocks.
pub mod Words
pub mod Padding
pub mod Columns
pub mod Lines
pub mod Bitmaps
pub mod Build
pub mod Runs
