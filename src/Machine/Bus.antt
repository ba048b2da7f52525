-- ===== src/Machine/Bus.antt =====
-- Witnesses, bus events and step effects (crates/zksm83-core/src/bus.rs), and `StepError` of
-- transition.rs.
pub mod Kinds
pub mod Codes
use zksm.Prelude.{ℕ, Bool, List}
use zksm.Isa.Types.{DecodedInstruction}
use zksm.Isa.Alignment.Rows.{AlignmentPackingError}
use zksm.Devices.State.{Interrupt}
use zksm.Memory.Witness.{RomRead, MemoryRead, MemoryWrite, RomReadError, MemoryTranscriptError}
use zksm.Memory.Log.{LogError, BusTranscriptError, IsaTranscriptError}
use zksm.Machine.State.{RunState, VmStateError}

pub data BusRole : Type 0 where
  opcode_fetch immediate_read data_read data_write : BusRole

pub data BusWitness : Type 0 where
  rom : RomRead → BusWitness
  memory_read : MemoryRead → BusWitness
  memory_write : MemoryWrite → BusWitness
  input_byte : ℕ → BusWitness

pub data WitnessKind : Type 0 where
  rom memory_read memory_write input_byte : WitnessKind

unfoldable pub witness_kind : BusWitness → WitnessKind
witness_kind (BusWitness.rom _) = WitnessKind.rom
witness_kind (BusWitness.memory_read _) = WitnessKind.memory_read
witness_kind (BusWitness.memory_write _) = WitnessKind.memory_write
witness_kind (BusWitness.input_byte _) = WitnessKind.input_byte

-- The addresses: of the CPU, then in the image.
pub data WitnessRequest : Type 0 where
  rom : ℕ → ℕ → BusRole → WitnessRequest
  memory_read : ℕ → ℕ → WitnessRequest
  memory_write : ℕ → ℕ → ℕ → WitnessRequest
  input_byte : WitnessRequest

unfoldable pub request_kind : WitnessRequest → WitnessKind
request_kind (WitnessRequest.rom _ _ _) = WitnessKind.rom
request_kind (WitnessRequest.memory_read _ _) = WitnessKind.memory_read
request_kind (WitnessRequest.memory_write _ _ _) = WitnessKind.memory_write
request_kind WitnessRequest.input_byte = WitnessKind.input_byte

pub data BusEvent : Type 0 where
  opcode_fetch immediate_read : RomRead → BusEvent
  memory_opcode_fetch memory_immediate_read : MemoryRead → BusEvent
  rom_read : RomRead → BusEvent
  memory_read : MemoryRead → BusEvent
  dmg_dma_rom_read : RomRead → BusEvent
  dmg_dma_memory_read : MemoryRead → BusEvent
  dmg_dma_write memory_write : MemoryWrite → BusEvent
  mbc3_control_write mbc3_open_bus_read mbc3_ignored_write : (address value : ℕ) → BusEvent
  input_read output_write : (index value : ℕ) → BusEvent
  dmg_mmio_read : (address value : ℕ) → BusEvent
  dmg_mmio_write : (address before value : ℕ) → BusEvent
  dmg_joypad_read : (index before_buttons buttons value : ℕ) → BusEvent

pub data BusEventKind : Type 0 where
  unused opcode_fetch immediate_read rom_read memory_read memory_write : BusEventKind
  input_read output_write : BusEventKind
  mbc3_control_write mbc3_open_bus_read mbc3_ignored_write : BusEventKind
  dmg_mmio_read dmg_mmio_write dmg_joypad_read : BusEventKind
  memory_opcode_fetch memory_immediate_read : BusEventKind
  dmg_dma_rom_read dmg_dma_memory_read dmg_dma_write : BusEventKind

pub data StepKind : Type 0 where
  instruction halt_idle halt_until_vblank halt_until_serial halt_until_timer : StepKind
  halt_wake dma_byte : StepKind
  interrupt_dispatch : Interrupt → StepKind

pub record StepEffects : Type 0 where
  pub kind : StepKind
  pub instruction : DecodedInstruction
  pub branch_taken : Bool
  pub bus_events : List BusEvent

pub data StepError : Type 0 where
  cpu_not_running : RunState → StepError
  missing_witness : WitnessRequest → StepError
  unexpected_witness : WitnessRequest → WitnessKind → StepError
  witness_kind_invariant : StepError
  address_mismatch physical_address_mismatch : BusRole → (expected actual : ℕ) → StepError
  write_value_mismatch : (expected actual : ℕ) → StepError
  surplus_witnesses : ℕ → StepError
  rom_authentication : RomReadError → StepError
  memory_authentication : MemoryTranscriptError → StepError
  mbc3_rtc_register_unavailable : ℕ → StepError
  log_commitment : LogError → StepError
  bus_transcript_commitment : BusTranscriptError → StepError
  isa_transcript_commitment : IsaTranscriptError → StepError
  alignment_packing : AlignmentPackingError → StepError
  invalid_state : VmStateError → StepError
  undefined_opcode : ℕ → StepError
  instruction_metadata_invariant missing_immediate_byte : StepError
  invalid_stop_padding : ℕ → StepError
  undispatched_cb_prefix : StepError
  write_to_rom : ℕ → StepError
  write_to_input_port read_from_output_port : StepError
  unowned_read unowned_instruction_fetch unowned_write : ℕ → StepError
  dmg_mmio_unavailable dmg_dma_cpu_bus_unavailable dmg_dma_source_unavailable : ℕ → StepError
  dmg_ppu_cpu_bus_unavailable dmg_echo_unavailable : ℕ → StepError
  cycle_count_overflow machine_event_marker_invariant : StepError
