-- ===== src/Devices.antt =====
-- The DMG devices (crates/zksm83-core/src/dmg.rs).
pub mod State
pub mod Ppu
pub mod Lines
pub mod Mmio
pub mod Clock
pub mod Halt
pub mod Advance
pub mod Interrupts
pub mod Idle
pub mod Shape
pub mod Waiting
pub mod SerialHalt
