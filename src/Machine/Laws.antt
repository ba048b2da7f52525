-- ===== src/Machine/Laws.antt =====
-- What a property of the executor must satisfy at each of its primitive actions
-- (crates/zksm83-core/src/bus.rs), for the accesses and the instructions to keep it.
pub mod Bus
pub mod Dma
pub mod Data
pub mod Operands
pub mod Instructions
pub mod Steps
pub mod Frame
pub mod Finish
pub mod Apply
pub mod Primitives
use zksm.Prelude.{ℕ, ◌≡◌, List, Option, none, some}
use zksm.Flags.{Flags}
use zksm.Mapper.{Mapper}
use zksm.Devices.State.{Devices}
use zksm.Memory.Witness.{RomRead, MemoryRead, MemoryWrite}
use zksm.Memory.Log.{LogAccumulator}
use zksm.Machine.State.{Registers, ImeState, RunState}
use zksm.Machine.Bus.{BusWitness, BusEvent, WitnessRequest}
use zksm.Machine.Executor.{
  Executor, cpu, devices, mbc3, profile, input_log, output_log, set_registers, set_flags, set_pc,
  set_sp, set_ime, set_run_state, set_mbc3, set_devices, set_input_log, set_output_log, push_event,
  next,
}
use zksm.Machine.Executor.Access.{authenticate_rom, authenticate_read, authenticate_write}
use zksm.Machine.Triple.{Triple, Keeps}

-- The witness that an event records.
unfoldable pub carries : BusEvent → Option BusWitness
carries (BusEvent.opcode_fetch read) = some (BusWitness.rom read)
carries (BusEvent.immediate_read read) = some (BusWitness.rom read)
carries (BusEvent.rom_read read) = some (BusWitness.rom read)
carries (BusEvent.dmg_dma_rom_read read) = some (BusWitness.rom read)
carries (BusEvent.memory_opcode_fetch read) = some (BusWitness.memory_read read)
carries (BusEvent.memory_immediate_read read) = some (BusWitness.memory_read read)
carries (BusEvent.memory_read read) = some (BusWitness.memory_read read)
carries (BusEvent.dmg_dma_memory_read read) = some (BusWitness.memory_read read)
carries (BusEvent.dmg_dma_write write) = some (BusWitness.memory_write write)
carries (BusEvent.memory_write write) = some (BusWitness.memory_write write)
carries (BusEvent.input_read index value) = some (BusWitness.input_byte value)
carries (BusEvent.dmg_joypad_read index before_buttons buttons value) =
    some (BusWitness.input_byte buttons)
carries _ = none

-- Between two accesses; with a witness taken; with that witness authenticated.
pub data Phase : Type 0 where
  idle : Phase
  taken checked : BusWitness → Phase

-- The laws of the accesses that do not write the CPU, the mapper, the devices or the logs.
pub record AccessLaws (sha256 : List ℕ → List ℕ) (f : Executor → Executor)
    (H : Phase → Executor → Type 0) : Type 0 where
  pub get_devices : (p : Phase) → Keeps f (H p) devices
  pub get_mbc3 : (p : Phase) → Keeps f (H p) mbc3
  pub get_profile : (p : Phase) → Keeps f (H p) profile
  pub take : (request : WitnessRequest) → Triple f (H idle) (next request) (λ w. H (taken w))
  pub check_rom :
      (r : RomRead)
      → Triple f
          (H (taken (BusWitness.rom r)))
          (authenticate_rom sha256 r)
          (λ _. H (checked (BusWitness.rom r)))
  pub check_read :
      (r : MemoryRead)
      → Triple f
          (H (taken (BusWitness.memory_read r)))
          (authenticate_read sha256 r)
          (λ _. H (checked (BusWitness.memory_read r)))
  pub check_write :
      (w : MemoryWrite)
      → Triple f
          (H (taken (BusWitness.memory_write w)))
          (authenticate_write sha256 w)
          (λ _. H (checked (BusWitness.memory_write w)))
  pub check_input :
      (v : ℕ) (x : Executor)
      → H (taken (BusWitness.input_byte v)) x
      → H (checked (BusWitness.input_byte v)) x
  pub record_event :
      (event : BusEvent) (w : BusWitness)
      → carries event ≡ some w
      → Triple f (H (checked w)) (push_event event) (λ _. H idle)
  pub silent_event : (event : BusEvent) → carries event ≡ none → Keeps f (H idle) (push_event event)

pub record Laws (sha256 : List ℕ → List ℕ) (f : Executor → Executor) (H : Phase → Executor → Type 0)
    : Type 0 where
  pub access : AccessLaws sha256 f H
  pub get_cpu : (p : Phase) → Keeps f (H p) cpu
  pub get_input_log : (p : Phase) → Keeps f (H p) input_log
  pub get_output_log : (p : Phase) → Keeps f (H p) output_log
  pub put_registers : (r : Registers) → Keeps f (H idle) (set_registers r)
  pub put_flags : (flags : Flags) → Keeps f (H idle) (set_flags flags)
  pub put_pc : (pc : ℕ) → Keeps f (H idle) (set_pc pc)
  pub put_sp : (sp : ℕ) → Keeps f (H idle) (set_sp sp)
  pub put_ime : (ime : ImeState) → Keeps f (H idle) (set_ime ime)
  pub put_run_state : (s : RunState) → Keeps f (H idle) (set_run_state s)
  pub put_mbc3 : (m : Mapper) → Keeps f (H idle) (set_mbc3 m)
  pub put_devices : (d : Devices) (p : Phase) → Keeps f (H p) (set_devices d)
  pub put_input_log : (log : LogAccumulator) (p : Phase) → Keeps f (H p) (set_input_log log)
  pub put_output_log : (log : LogAccumulator) → Keeps f (H idle) (set_output_log log)
