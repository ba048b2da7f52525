-- ===== src/Machine.antt =====
-- The machine (crates/zksm83-core/src): its state, its bus and its transitions.
pub mod State
pub mod Bus
pub mod Executor
pub mod Operands
pub mod Local
pub mod Execute
pub mod Transition
pub mod Step
pub mod Triple
pub mod Laws
pub mod Authentication
pub mod Witnesses
pub mod Replay
pub mod Cycles
pub mod Dma
