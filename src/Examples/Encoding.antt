-- ===== src/Examples/Encoding.antt =====
-- Reversible texts.
pub mod Values
