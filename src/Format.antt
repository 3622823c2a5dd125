-- ===== src/Format.antt =====
-- The layout engine and the import order of the formatter (togo/internal/format).
pub mod Doc
pub mod Imports
mod Samples
