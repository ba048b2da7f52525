-- ===== src/Machine/State.antt =====
-- The CPU and the machine state (crates/zksm83-core/src/state.rs).
use zksm.Prelude.{ℕ, Bool, true, false, List, Result, ok, err, ◌>>=◌, not, if◌then◌else◌}
use zksm.Flags.{Flags}
use zksm.Mapper
use zksm.Mapper.{Mapper, CartridgeProfile, RomSize, RtcMode, MapperError}
use zksm.Devices.State
use zksm.Devices.State.{Devices}
use zksm.Memory.Hash.{CommitmentRoot}
use zksm.Memory.Log
use zksm.Memory.Log.{LogAccumulator, LogKind, TranscriptAccumulator}

pub data MachineProfile : Type 0 where
  clean_core_v1 : MachineProfile
  dmg_post_boot_mbc3_v1 : MachineProfile
  dmg_post_boot_mbc3_rom_256_kib_no_rtc_v1 : MachineProfile
  dmg_post_boot_mbc3_rom_256_kib_rtc_v1 : MachineProfile
  dmg_post_boot_mbc3_rom_1_mib_rtc_v1 : MachineProfile

unfoldable pub profile_code : MachineProfile → ℕ
profile_code MachineProfile.clean_core_v1 = 0
profile_code MachineProfile.dmg_post_boot_mbc3_v1 = 1
profile_code MachineProfile.dmg_post_boot_mbc3_rom_256_kib_no_rtc_v1 = 2
profile_code MachineProfile.dmg_post_boot_mbc3_rom_256_kib_rtc_v1 = 3
profile_code MachineProfile.dmg_post_boot_mbc3_rom_1_mib_rtc_v1 = 4

unfoldable pub is_dmg_post_boot_mbc3 : MachineProfile → Bool
is_dmg_post_boot_mbc3 MachineProfile.clean_core_v1 = false
is_dmg_post_boot_mbc3 _ = true

unfoldable pub mbc3_cartridge_profile : MachineProfile → CartridgeProfile
mbc3_cartridge_profile MachineProfile.clean_core_v1 = Mapper.one_mib_no_rtc
mbc3_cartridge_profile MachineProfile.dmg_post_boot_mbc3_v1 = Mapper.one_mib_no_rtc
mbc3_cartridge_profile MachineProfile.dmg_post_boot_mbc3_rom_256_kib_no_rtc_v1 = record {
  rom_size = RomSize.rom_256_kib;
  rtc = RtcMode.no_rtc;
}
mbc3_cartridge_profile MachineProfile.dmg_post_boot_mbc3_rom_256_kib_rtc_v1 = record {
  rom_size = RomSize.rom_256_kib;
  rtc = RtcMode.rtc_capable;
}
mbc3_cartridge_profile MachineProfile.dmg_post_boot_mbc3_rom_1_mib_rtc_v1 = record {
  rom_size = RomSize.rom_1_mib;
  rtc = RtcMode.rtc_capable;
}

abbrev profile_of : RomSize → RtcMode → MachineProfile
profile_of RomSize.rom_256_kib RtcMode.no_rtc =
    MachineProfile.dmg_post_boot_mbc3_rom_256_kib_no_rtc_v1
profile_of RomSize.rom_256_kib RtcMode.rtc_capable =
    MachineProfile.dmg_post_boot_mbc3_rom_256_kib_rtc_v1
profile_of RomSize.rom_1_mib RtcMode.no_rtc = MachineProfile.dmg_post_boot_mbc3_v1
profile_of RomSize.rom_1_mib RtcMode.rtc_capable =
    MachineProfile.dmg_post_boot_mbc3_rom_1_mib_rtc_v1

unfoldable pub dmg_post_boot_for_cartridge : CartridgeProfile → MachineProfile
dmg_post_boot_for_cartridge profile = profile_of profile.rom_size profile.rtc

pub record MachineContext : Type 0 where
  pub profile : MachineProfile
  pub dmg_devices : Devices

pub record Registers : Type 0 where
  pub a : ℕ
  pub b : ℕ
  pub c : ℕ
  pub d : ℕ
  pub e : ℕ
  pub h : ℕ
  pub l : ℕ

pub data ImeState : Type 0 where
  disabled enable_pending enabled : ImeState

-- `ImeState::code`
unfoldable pub ime_code : ImeState → ℕ
ime_code ImeState.disabled = 0
ime_code ImeState.enable_pending = 1
ime_code ImeState.enabled = 2

pub data RunState : Type 0 where
  running halted stopped halt_bug : RunState

-- `RunState::code`
unfoldable pub run_state_code : RunState → ℕ
run_state_code RunState.running = 0
run_state_code RunState.halted = 1
run_state_code RunState.stopped = 2
run_state_code RunState.halt_bug = 3

unfoldable pub can_execute_instruction : RunState → Bool
can_execute_instruction RunState.running = true
can_execute_instruction RunState.halted = false
can_execute_instruction RunState.stopped = false
can_execute_instruction RunState.halt_bug = true

pub record CpuState : Type 0 where
  pub registers : Registers
  pub flags : Flags
  pub pc : ℕ
  pub sp : ℕ
  pub ime : ImeState
  pub run_state : RunState
  pub m_cycles : ℕ

abbrev pub cpu_profile_initial : CpuState
cpu_profile_initial = record {
  registers = record { a = 0; b = 0; c = 0; d = 0; e = 0; h = 0; l = 0 };
  flags = record { byte = 0 };
  pc = 0;
  sp = 0xff00;
  ime = ImeState.disabled;
  run_state = RunState.running;
  m_cycles = 0;
}

abbrev pub dmg_post_boot_initial : CpuState
dmg_post_boot_initial = record {
  registers = record { a = 0x01; b = 0x00; c = 0x13; d = 0x00; e = 0xd8; h = 0x01; l = 0x4d };
  flags = record { byte = 0xb0 };
  pc = 0x0100;
  sp = 0xfffe;
  ime = ImeState.disabled;
  run_state = RunState.running;
  m_cycles = 0;
}

pub record VmState : Type 0 where
  pub profile : MachineProfile
  pub cpu : CpuState
  pub mbc3 : Mapper
  pub dmg_devices : Devices
  pub rom_root : CommitmentRoot
  pub memory_root : CommitmentRoot
  pub input_log : LogAccumulator
  pub output_log : LogAccumulator
  pub bus_transcript : TranscriptAccumulator
  pub isa_transcript : TranscriptAccumulator

pub data VmStateError : Type 0 where
  invalid_flags : ℕ → VmStateError
  wrong_input_log_domain wrong_output_log_domain : VmStateError
  invalid_mbc3 : MapperError → VmStateError
  unsupported_machine_profile : MachineProfile → VmStateError

abbrev is_input : LogKind → Bool
is_input LogKind.input = true
is_input LogKind.output = false

module _ (sha256 : List ℕ → List ℕ) where
  unfoldable pub vm_profile_initial : CommitmentRoot → CommitmentRoot → VmState
  vm_profile_initial rom_root memory_root = record {
    profile = MachineProfile.clean_core_v1;
    cpu = cpu_profile_initial;
    mbc3 = Mapper.profile_initial;
    dmg_devices = State.empty;
    rom_root = rom_root;
    memory_root = memory_root;
    input_log = Log.empty sha256 LogKind.input;
    output_log = Log.empty sha256 LogKind.output;
    bus_transcript = Log.empty_bus_transcript sha256;
    isa_transcript = Log.empty_isa_transcript sha256;
  }

  unfoldable pub dmg_post_boot_mbc3_unchecked :
      MachineProfile → CommitmentRoot → CommitmentRoot → VmState
  dmg_post_boot_mbc3_unchecked profile rom_root memory_root = record {
    profile = profile;
    cpu = dmg_post_boot_initial;
    mbc3 = Mapper.profile_initial;
    dmg_devices = State.dmg_post_boot;
    rom_root = rom_root;
    memory_root = memory_root;
    input_log = Log.empty sha256 LogKind.input;
    output_log = Log.empty sha256 LogKind.output;
    bus_transcript = Log.empty_bus_transcript sha256;
    isa_transcript = Log.empty_isa_transcript sha256;
  }

  unfoldable pub dmg_post_boot_mbc3_initial : CommitmentRoot → CommitmentRoot → VmState
  unfolding dmg_post_boot_mbc3_unchecked
  dmg_post_boot_mbc3_initial rom_root memory_root =
      dmg_post_boot_mbc3_unchecked MachineProfile.dmg_post_boot_mbc3_v1 rom_root memory_root

  unfoldable pub dmg_post_boot_mbc3_profile_initial :
      MachineProfile → CommitmentRoot → CommitmentRoot → Result VmStateError VmState
  unfolding dmg_post_boot_mbc3_unchecked
  dmg_post_boot_mbc3_profile_initial profile rom_root memory_root =
      if not (is_dmg_post_boot_mbc3 profile)
      then err (VmStateError.unsupported_machine_profile profile)
      else ok (dmg_post_boot_mbc3_unchecked profile rom_root memory_root)

  unfoldable pub from_parts :
      CpuState
      → CommitmentRoot
      → CommitmentRoot
      → LogAccumulator
      → LogAccumulator
      → Result VmStateError VmState
  from_parts cpu rom_root memory_root input_log output_log =
      if not (is_input input_log.kind)
      then err VmStateError.wrong_input_log_domain
      else if is_input output_log.kind
      then err VmStateError.wrong_output_log_domain
      else ok (record {
        profile = MachineProfile.clean_core_v1;
        cpu = cpu;
        mbc3 = Mapper.profile_initial;
        dmg_devices = State.empty;
        rom_root = rom_root;
        memory_root = memory_root;
        input_log = input_log;
        output_log = output_log;
        bus_transcript = Log.empty_bus_transcript sha256;
        isa_transcript = Log.empty_isa_transcript sha256;
      })

  unfoldable pub from_parts_with_mbc3 :
      CpuState
      → Mapper
      → CommitmentRoot
      → CommitmentRoot
      → LogAccumulator
      → LogAccumulator
      → Result VmStateError VmState
  unfolding from_parts
  from_parts_with_mbc3 cpu mbc3 rom_root memory_root input_log output_log = do
    state ← from_parts cpu rom_root memory_root input_log output_log
    ok (record state { mbc3 = mbc3 })

  unfoldable pub vm_from_profile_parts :
      MachineContext
      → CpuState
      → Mapper
      → CommitmentRoot
      → CommitmentRoot
      → LogAccumulator
      → LogAccumulator
      → Result VmStateError VmState
  unfolding from_parts_with_mbc3
  vm_from_profile_parts machine cpu mbc3 rom_root memory_root input_log output_log = do
    state ← from_parts_with_mbc3 cpu mbc3 rom_root memory_root input_log output_log
    ok (record state { profile = machine.profile; dmg_devices = machine.dmg_devices })
