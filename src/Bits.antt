-- ===== src/Bits.antt =====
-- Bit arithmetic on 64-bit words that the components share.
pub mod And
pub mod Lowbit
pub mod PowerOfTwo
