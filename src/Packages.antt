-- ===== src/Packages.antt =====
-- The package domain model, version selection and dependency resolution
-- (togo/internal/packages).
pub mod Version
pub mod Range
pub mod Domain
pub mod Resolver
pub mod Memory
mod Samples
