-- ===== src/Soroban.antt =====
-- project/shopble/lib/libsoroban
pub mod Sdk
pub mod Value
pub mod Call
pub mod Client
