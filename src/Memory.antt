-- ===== src/Memory.antt =====
-- Authenticated memory (crates/zksm83-memory/src).
pub mod Address
pub mod Hash
pub mod Injective
pub mod Witness
pub mod Cache
pub mod Image
pub mod Binding
pub mod Log
pub mod LogBinding
pub mod LogTotal
