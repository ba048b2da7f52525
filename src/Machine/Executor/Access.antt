-- ===== src/Machine/Executor/Access.antt =====
-- The checks and the witnesses of bus accesses (crates/zksm83-core/src/bus.rs).
use zksm.Prelude.{ℕ, Bool, not, ◌&&◌, ◌||◌, ◌==◌, within, List, ok, if◌then◌else◌}
use zksm.Devices.State.{Devices}
use zksm.Devices.Ppu.{cpu_vram_blocked, cpu_oam_blocked}
use zksm.Memory.Address.{AddressOwner, owner, dmg_owner}
use zksm.Memory.Hash.{CommitmentRoot}
use zksm.Memory.Witness.{
  RomRead, MemoryRead, MemoryWrite, verify_rom_read, verify_read, verify_write,
}
use zksm.Machine.State.{MachineProfile, is_dmg_post_boot_mbc3}
use zksm.Machine.Bus.{BusRole, BusWitness, WitnessRequest, BusEvent, StepError}
use zksm.Machine.Executor.{
  BusAuthentication, M, pure, fail, lift, ◌>>=◌, ◌>>◌, devices, profile, next,
}

unfoldable pub state_owner : MachineProfile → ℕ → AddressOwner
state_owner p address = if is_dmg_post_boot_mbc3 p then dmg_owner address else owner address

unfoldable pub require_address : (expected actual : ℕ) → BusRole → M Unit
require_address expected actual role =
    if not (actual == expected)
    then fail (StepError.address_mismatch role expected actual)
    else pure tt

unfoldable pub require_physical_address : (expected actual : ℕ) → BusRole → M Unit
require_physical_address expected actual role =
    if not (actual == expected)
    then fail (StepError.physical_address_mismatch role expected actual)
    else pure tt

unfoldable pub require_cpu_dma_access : ℕ → M Unit
require_cpu_dma_access address = do
  p ← profile
  d ← devices
  if is_dmg_post_boot_mbc3 p && (d.dma_active && not (within 0xff80 0xfffe address))
      then fail (StepError.dmg_dma_cpu_bus_unavailable address)
      else pure tt

abbrev pub ppu_blocked : Devices → ℕ → Bool
ppu_blocked d address =
    (within 0x8000 0x9fff address && cpu_vram_blocked d)
    || (within 0xfe00 0xfe9f address && cpu_oam_blocked d)

unfoldable pub require_cpu_ppu_access : ℕ → M Unit
require_cpu_ppu_access address = do
  p ← profile
  d ← devices
  if not (is_dmg_post_boot_mbc3 p)
      then pure tt
      else if ppu_blocked d address
      then fail (StepError.dmg_ppu_cpu_bus_unavailable address)
      else pure tt

-- `let BusWitness::Rom(read) = witness else { .. }`, and for the other kinds.
unfoldable pub as_rom : BusWitness → M RomRead
as_rom (BusWitness.rom read) = pure read
as_rom _ = fail StepError.witness_kind_invariant

unfoldable pub as_memory_read : BusWitness → M MemoryRead
as_memory_read (BusWitness.memory_read read) = pure read
as_memory_read _ = fail StepError.witness_kind_invariant

unfoldable pub as_memory_write : BusWitness → M MemoryWrite
as_memory_write (BusWitness.memory_write write) = pure write
as_memory_write _ = fail StepError.witness_kind_invariant

unfoldable pub as_input_byte : BusWitness → M ℕ
as_input_byte (BusWitness.input_byte value) = pure value
as_input_byte _ = fail StepError.witness_kind_invariant

-- The events of a fetch from ROM and of one from memory.
unfoldable pub fetch_event : BusRole → RomRead → M BusEvent
fetch_event BusRole.opcode_fetch read = pure (BusEvent.opcode_fetch read)
fetch_event BusRole.immediate_read read = pure (BusEvent.immediate_read read)
fetch_event BusRole.data_read read = pure (BusEvent.rom_read read)
fetch_event BusRole.data_write read = fail StepError.instruction_metadata_invariant

unfoldable pub instruction_event : BusRole → MemoryRead → M BusEvent
instruction_event BusRole.opcode_fetch read = pure (BusEvent.memory_opcode_fetch read)
instruction_event BusRole.immediate_read read = pure (BusEvent.memory_immediate_read read)
instruction_event BusRole.data_read read = fail StepError.instruction_metadata_invariant
instruction_event BusRole.data_write read = fail StepError.instruction_metadata_invariant

-- `if self.authentication == BusAuthentication::Merkle { .. }`
abbrev pub if_merkle : BusAuthentication → M Unit → M Unit
if_merkle BusAuthentication.merkle m = m
if_merkle BusAuthentication.lookup m = pure tt

unfoldable pub set_memory_root : CommitmentRoot → M Unit
set_memory_root root x = ok (tt, record x { state = record x.state { memory_root = root } })

module _ (sha256 : List ℕ → List ℕ) where
  unfoldable pub authenticate_rom : RomRead → M Unit
  authenticate_rom read x =
      if_merkle x.authentication
        (lift StepError.rom_authentication (verify_rom_read sha256 x.state.rom_root read)) x

  unfoldable pub authenticate_read : MemoryRead → M Unit
  authenticate_read read x =
      if_merkle x.authentication
        (lift StepError.memory_authentication (verify_read sha256 x.state.memory_root read)) x

  unfoldable pub authenticate_write : MemoryWrite → M Unit
  authenticate_write write x =
      if_merkle x.authentication
        (lift StepError.memory_authentication (verify_write sha256 x.state.memory_root write)
          >>= set_memory_root)
        x

  unfoldable pub take_rom_read : (address physical_address : ℕ) → BusRole → M RomRead
  take_rom_read address physical_address role = do
    witness ← next (WitnessRequest.rom address physical_address role)
    read ← as_rom witness
    require_address address read.address role
    require_physical_address physical_address read.physical_address role
    authenticate_rom read
    pure read

  unfoldable pub take_memory_read : (address physical_address : ℕ) → BusRole → M MemoryRead
  take_memory_read address physical_address role = do
    witness ← next (WitnessRequest.memory_read address physical_address)
    read ← as_memory_read witness
    require_address address read.address role
    require_physical_address physical_address read.physical_address role
    authenticate_read read
    pure read

unfoldable pub take_memory_write : (address physical_address value : ℕ) → M MemoryWrite
take_memory_write address physical_address value = do
  witness ← next (WitnessRequest.memory_write address physical_address value)
  write ← as_memory_write witness
  require_address address write.address BusRole.data_write
  require_physical_address physical_address write.physical_address BusRole.data_write
  if not (write.after == value)
      then fail (StepError.write_value_mismatch value write.after)
      else pure write
