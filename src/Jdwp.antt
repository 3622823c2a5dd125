-- ===== src/Jdwp.antt =====
-- The client of the Java Debug Wire Protocol (togo/internal/jdwp).
pub mod Protocol
mod Samples
