-- ===== src/Stellar.antt =====
-- project/shopble/lib/libstellar
pub mod Text
pub mod Config
pub mod Horizon
pub mod Instruction
