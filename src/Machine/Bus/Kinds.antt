-- ===== src/Machine/Bus/Kinds.antt =====
-- The kinds of bus events, their codes and their rows (crates/zksm83-core/src/bus.rs).
use zksm.Prelude.{ℕ, List, [], ◌∷◌, map, Result, ok, err, select}
use zksm.Memory.Address.{input_port, output_port}
use zksm.Memory.Witness.{RomRead, MemoryRead, MemoryWrite}
use zksm.Memory.Log.{BusTranscriptEvent}
use zksm.Machine.Bus.{BusEvent, BusEventKind}

-- `BusEventKind::code`
unfoldable pub kind_code : BusEventKind → ℕ
kind_code BusEventKind.unused = 0
kind_code BusEventKind.opcode_fetch = 1
kind_code BusEventKind.immediate_read = 2
kind_code BusEventKind.rom_read = 3
kind_code BusEventKind.memory_read = 4
kind_code BusEventKind.memory_write = 5
kind_code BusEventKind.input_read = 6
kind_code BusEventKind.output_write = 7
kind_code BusEventKind.mbc3_control_write = 8
kind_code BusEventKind.mbc3_open_bus_read = 9
kind_code BusEventKind.mbc3_ignored_write = 10
kind_code BusEventKind.dmg_mmio_read = 11
kind_code BusEventKind.dmg_mmio_write = 12
kind_code BusEventKind.dmg_joypad_read = 13
kind_code BusEventKind.memory_opcode_fetch = 14
kind_code BusEventKind.memory_immediate_read = 15
kind_code BusEventKind.dmg_dma_rom_read = 16
kind_code BusEventKind.dmg_dma_memory_read = 17
kind_code BusEventKind.dmg_dma_write = 18

pub data BusEventKindError : Type 0 where
  unknown_code : ℕ → BusEventKindError

abbrev pub kinds : List BusEventKind
kinds =
    BusEventKind.unused ∷ BusEventKind.opcode_fetch ∷ BusEventKind.immediate_read
    ∷ BusEventKind.rom_read ∷ BusEventKind.memory_read ∷ BusEventKind.memory_write
    ∷ BusEventKind.input_read ∷ BusEventKind.output_write ∷ BusEventKind.mbc3_control_write
    ∷ BusEventKind.mbc3_open_bus_read ∷ BusEventKind.mbc3_ignored_write ∷ BusEventKind.dmg_mmio_read
    ∷ BusEventKind.dmg_mmio_write ∷ BusEventKind.dmg_joypad_read ∷ BusEventKind.memory_opcode_fetch
    ∷ BusEventKind.memory_immediate_read ∷ BusEventKind.dmg_dma_rom_read
    ∷ BusEventKind.dmg_dma_memory_read ∷ BusEventKind.dmg_dma_write ∷ []

-- `BusEventKind::try_from`
unfoldable pub kind_of_code : ℕ → Result BusEventKindError BusEventKind
kind_of_code code = select code (map ok kinds) (err (unknown_code code))

-- `BusEvent::kind`
unfoldable pub event_kind : BusEvent → BusEventKind
event_kind (BusEvent.opcode_fetch _) = BusEventKind.opcode_fetch
event_kind (BusEvent.immediate_read _) = BusEventKind.immediate_read
event_kind (BusEvent.memory_opcode_fetch _) = BusEventKind.memory_opcode_fetch
event_kind (BusEvent.memory_immediate_read _) = BusEventKind.memory_immediate_read
event_kind (BusEvent.rom_read _) = BusEventKind.rom_read
event_kind (BusEvent.memory_read _) = BusEventKind.memory_read
event_kind (BusEvent.dmg_dma_rom_read _) = BusEventKind.dmg_dma_rom_read
event_kind (BusEvent.dmg_dma_memory_read _) = BusEventKind.dmg_dma_memory_read
event_kind (BusEvent.dmg_dma_write _) = BusEventKind.dmg_dma_write
event_kind (BusEvent.memory_write _) = BusEventKind.memory_write
event_kind (BusEvent.mbc3_control_write _ _) = BusEventKind.mbc3_control_write
event_kind (BusEvent.mbc3_open_bus_read _ _) = BusEventKind.mbc3_open_bus_read
event_kind (BusEvent.mbc3_ignored_write _ _) = BusEventKind.mbc3_ignored_write
event_kind (BusEvent.input_read _ _) = BusEventKind.input_read
event_kind (BusEvent.output_write _ _) = BusEventKind.output_write
event_kind (BusEvent.dmg_mmio_read _ _) = BusEventKind.dmg_mmio_read
event_kind (BusEvent.dmg_mmio_write _ _ _) = BusEventKind.dmg_mmio_write
event_kind (BusEvent.dmg_joypad_read _ _ _ _) = BusEventKind.dmg_joypad_read

unfoldable pub blank : BusEvent → BusTranscriptEvent
unfolding kind_code event_kind
blank event = record {
  kind = kind_code (event_kind event);
  address = 0;
  physical_address = 0;
  before = 0;
  auxiliary = 0;
  value = 0;
  index = 0;
}

abbrev pub of_rom_read : RomRead → BusTranscriptEvent → BusTranscriptEvent
of_rom_read read event = record event {
  address = read.address;
  physical_address = read.physical_address;
  value = read.value;
}

abbrev pub of_memory_read : MemoryRead → BusTranscriptEvent → BusTranscriptEvent
of_memory_read read event = record event {
  address = read.address;
  physical_address = read.physical_address;
  value = read.value;
}

abbrev pub of_memory_write : MemoryWrite → BusTranscriptEvent → BusTranscriptEvent
of_memory_write write event = record event {
  address = write.address;
  physical_address = write.physical_address;
  before = write.before;
  value = write.after;
}

abbrev pub of_access : ℕ → ℕ → BusTranscriptEvent → BusTranscriptEvent
of_access address value event = record event { address = address; value = value }

abbrev pub of_port : ℕ → ℕ → ℕ → BusTranscriptEvent → BusTranscriptEvent
of_port address index value event = record event { address = address; value = value; index = index }

-- The `match` of `transcript_event`.
abbrev pub filled : BusEvent → BusTranscriptEvent → BusTranscriptEvent
filled (BusEvent.opcode_fetch read) event = of_rom_read read event
filled (BusEvent.immediate_read read) event = of_rom_read read event
filled (BusEvent.rom_read read) event = of_rom_read read event
filled (BusEvent.dmg_dma_rom_read read) event = of_rom_read read event
filled (BusEvent.memory_opcode_fetch read) event = of_memory_read read event
filled (BusEvent.memory_immediate_read read) event = of_memory_read read event
filled (BusEvent.memory_read read) event = of_memory_read read event
filled (BusEvent.dmg_dma_memory_read read) event = of_memory_read read event
filled (BusEvent.memory_write write) event = of_memory_write write event
filled (BusEvent.dmg_dma_write write) event = of_memory_write write event
filled (BusEvent.mbc3_control_write address value) event = of_access address value event
filled (BusEvent.mbc3_open_bus_read address value) event = of_access address value event
filled (BusEvent.mbc3_ignored_write address value) event = of_access address value event
filled (BusEvent.dmg_mmio_read address value) event = of_access address value event
filled (BusEvent.input_read index value) event = of_port input_port index value event
filled (BusEvent.output_write index value) event = of_port output_port index value event
filled (BusEvent.dmg_mmio_write address before value) event = record event {
  address = address;
  before = before;
  value = value;
}
filled (BusEvent.dmg_joypad_read index before_buttons buttons value) event = record event {
  address = 0xff00;
  before = before_buttons;
  auxiliary = buttons;
  value = value;
  index = index;
}

unfoldable pub transcript_event : BusEvent → BusTranscriptEvent
unfolding blank
transcript_event event = filled event (blank event)
