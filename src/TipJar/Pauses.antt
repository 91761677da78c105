-- ===== src/TipJar/Pauses.antt =====
-- The pause flags: which features a pause word blocks, and what the pause calls make of it.
pub mod Bits
pub mod Calls
pub mod Gates
pub mod Tests
