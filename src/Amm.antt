-- ===== src/Amm.antt =====
-- The AMM models of src/mev/amm.
pub mod V2
pub mod V3
