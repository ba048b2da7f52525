-- ===== src/Lib.antt =====
-- Verification of zksm83, a virtual machine for the SM83 processor of the Game Boy (DMG).
--
-- The machine executes one transition at a time: it fetches and decodes an instruction
-- (crates/zksm83-isa), computes its result in the ALU and writes the CPU state, and lets the DMG
-- devices run for the M-cycles it took (crates/zksm83-core).
--
-- - Prelude: Boolean tests, lists, machine words, bit operations and results, shared by all files.
-- - Isa: crates/zksm83-isa/src. Isa.Types has the types of types.rs, Isa.Access and Isa.Metadata
--   the functions of metadata.rs, Isa.Decode those of decode.rs. Isa.Encode is an assembler that
--   stands for the instruction set itself and not for code. Isa.Alignment has the stable codes,
--   Isa.Alignment.Rows the rows of alignment.rs; a `u128` that is packed is a number.
-- - Flags, Alu: the F register of crates/zksm83-core/src/state.rs and the functions of alu.rs.
--   A function that returns a value and flags returns a record of them.
-- - Mapper: crates/zksm83-core/src/mbc3.rs, `Mbc3State` and its windows.
-- - Timer: crates/zksm83-core/src/dmg/timer.rs. A method that changes the timer takes it last and
--   returns it, beside the interrupt bits that it raises.
-- - Apu: crates/zksm83-core/src/dmg/apu.rs.
-- - Devices: crates/zksm83-core/src/dmg.rs. Devices.State is `DmgDeviceState` with the interrupt
--   priority, Ppu the LCD clock, Lines the joypad, the serial port and OAM DMA, Mmio the
--   memory-mapped registers, Clock the advance by M-cycles, Halt the skips of HALT.
-- - Memory: crates/zksm83-memory/src. Memory.Address has address.rs, Memory.Hash commitment.rs,
--   Memory.Witness the paths, witnesses and transcript of transcript.rs with verification as it is
--   without a cache, Memory.Cache the caches of verified witnesses and verification with them: a
--   thread's cache is an association list that is passed in and returned. Memory.Image is the Merkle
--   tree of image.rs and the memory image of a checkpoint, Memory.Image.Write their writes,
--   Memory.Image.Create the ROM image and the other constructors; `ilog2` runs on fuel 64 and the
--   search for a power of two on 63, for a `usize`.
--   Memory.Log has the accumulators of log.rs, bus_transcript.rs and isa_transcript.rs. SHA-256 is
--   a parameter: a function of bytes, of which the theorems assume digests of 32 bytes where they
--   need it.
-- - Machine: the machine itself, crates/zksm83-core/src. Machine.State has the profiles, the CPU and
--   the machine state of state.rs; Machine.Bus the roles, witnesses, events and effects of bus.rs
--   with `StepError` of transition.rs, and Machine.Bus.Kinds the codes and rows of events.
--   Machine.Executor is `Executor` as a state monad with errors: an action takes the executor and
--   returns a value and an executor, or an error, which drops the executor. Executor.Access has the
--   checks and the witnesses of an access, Executor.Data the fetches, reads, writes and the OAM DMA
--   copy. Machine.Operands, Machine.Local and Machine.Execute are execute.rs, by instruction class:
--   Local has the classes that do not use the data bus. Machine.Transition and Machine.Step are
--   transition.rs; `apply` takes the authentication that `StepRelation` and `LookupStepRelation`
--   pass. A function that ends in `executor.finish` returns what it did, and `apply` finishes.
-- - Machine.Triple, Machine.Laws: rules for the actions. A property of the executor gives the laws of
--   the primitive actions, and Machine.Laws.Apply carries it through every access, instruction and
--   transition. Machine.Authentication, Witnesses, Replay, Cycles and Dma are such properties.
-- - Examples: the theorems at concrete inputs.
--
-- Bytes and words are native numbers whose wrap-around is written out. The loops recurse on their
-- number of steps; the loop of `advance_quiet_long` runs on as much fuel as there are M-cycles,
-- and each round takes at least one of them.
--
-- Not modelled: the execution lookups (crates/zksm83-core/src/execution_lookup.rs), the packing of
-- device registers into words, traces (crates/zksm83-trace), the proof system
-- (crates/zksm83-jolt) and the CUDA backend (crates/zksm83-cuda).
pub mod Prelude
pub mod Isa
pub mod Flags
pub mod Alu
pub mod Mapper
pub mod Timer
pub mod Apu
pub mod Devices
pub mod Memory
pub mod Machine
pub mod Examples
