-- ===== src/Isa.antt =====
-- The instruction set (crates/zksm83-isa/src).
pub mod Types
pub mod Access
pub mod Metadata
pub mod Decode
pub mod Alignment
pub mod Encode
pub mod Table
