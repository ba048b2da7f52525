-- ===== src/Machine/Executor/Data.antt =====
-- Fetches, data reads, data writes and OAM DMA (crates/zksm83-core/src/bus.rs).
use zksm.Prelude.{ℕ, ◌&&◌, ◌==◌, leb, ltb, within, List, if◌then◌else◌}
use zksm.Mapper.{ExternalWindow, external_window_for, map_rom_for, apply_control_write_for}
use zksm.Devices.Mmio.{read_mmio, write_mmio}
use zksm.Devices.Lines.{
  sample_joypad, dma_source_address, dma_destination_address, complete_dma_byte,
}
use zksm.Memory.Address.{AddressOwner}
use zksm.Memory.Log.{append}
use zksm.Machine.State.{is_dmg_post_boot_mbc3, mbc3_cartridge_profile}
use zksm.Machine.Bus.{BusRole, WitnessRequest, BusEvent, StepError}
use zksm.Machine.Executor.{
  M, pure, fail, lift, require_some, ◌>>=◌, ◌>>◌, devices, mbc3, profile, input_log, output_log,
  set_mbc3, set_devices, set_input_log, set_output_log, push_event, next,
}
use zksm.Machine.Executor.Access.{
  state_owner, require_cpu_dma_access, require_cpu_ppu_access, as_input_byte, fetch_event,
  instruction_event, authenticate_write, take_rom_read, take_memory_read, take_memory_write,
}

unfoldable pub read_dmg_mmio : ℕ → M ℕ
read_dmg_mmio address = do
  d ← devices
  value ← require_some (StepError.dmg_mmio_unavailable address) (read_mmio address d)
  push_event (BusEvent.dmg_mmio_read address value)
  pure value

unfoldable pub write_dmg_mmio : ℕ → ℕ → M Unit
write_dmg_mmio address value = do
  d ← devices
  r ← require_some (StepError.dmg_mmio_unavailable address) (write_mmio address value d)
  set_devices r.1
  push_event (BusEvent.dmg_mmio_write address r.0 value)

unfoldable pub write_control : ℕ → ℕ → M Unit
write_control address value = do
  p ← profile
  m ← mbc3
  set_mbc3 (apply_control_write_for (mbc3_cartridge_profile p) address value m)
  push_event (BusEvent.mbc3_control_write address value)

module _ (sha256 : List ℕ → List ℕ) where
  unfoldable pub fetch : ℕ → BusRole → M ℕ
  fetch address role = do
    p ← profile
    m ← mbc3
    read ← take_rom_read sha256 address (map_rom_for m (mbc3_cartridge_profile p) address) role
    event ← fetch_event role read
    push_event event
    pure read.value

  unfoldable pub read_memory : (address physical_address : ℕ) → M ℕ
  read_memory address physical_address = do
    read ← take_memory_read sha256 address physical_address BusRole.data_read
    push_event (BusEvent.memory_read read)
    pure read.value

  unfoldable pub read_instruction_memory : ℕ → BusRole → M ℕ
  read_instruction_memory address role = do
    read ← take_memory_read sha256 address address role
    event ← instruction_event role read
    push_event event
    pure read.value

  unfoldable pub write_memory : (address physical_address value : ℕ) → M Unit
  write_memory address physical_address value = do
    write ← take_memory_write address physical_address value
    authenticate_write sha256 write
    push_event (BusEvent.memory_write write)

  unfoldable pub read_input : M ℕ
  read_input = do
    witness ← next WitnessRequest.input_byte
    value ← as_input_byte witness
    log ← input_log
    next_log ← lift StepError.log_commitment (append sha256 log value)
    set_input_log next_log
    push_event (BusEvent.input_read log.next_index value)
    pure value

  unfoldable pub read_dmg_joypad : M ℕ
  read_dmg_joypad = do
    witness ← next WitnessRequest.input_byte
    buttons ← as_input_byte witness
    log ← input_log
    next_log ← lift StepError.log_commitment (append sha256 log buttons)
    d ← devices
    set_devices (sample_joypad buttons d).1
    set_input_log next_log
    push_event (
        BusEvent.dmg_joypad_read log.next_index d.joypad_buttons buttons
          (sample_joypad buttons d).0)
    pure (sample_joypad buttons d).0

  unfoldable pub write_output : ℕ → M Unit
  write_output value = do
    log ← output_log
    next_log ← lift StepError.log_commitment (append sha256 log value)
    set_output_log next_log
    push_event (BusEvent.output_write log.next_index value)

  -- The `match` on the owner in `fetch_instruction`.
  unfoldable pub fetch_owned : AddressOwner → ℕ → BusRole → M ℕ
  fetch_owned AddressOwner.rom address role = fetch address role
  fetch_owned AddressOwner.memory address role = read_instruction_memory address role
  fetch_owned _ address role = fail (StepError.unowned_instruction_fetch address)

  unfoldable pub fetch_instruction : ℕ → BusRole → M ℕ
  fetch_instruction address role = do
    require_cpu_dma_access address
    require_cpu_ppu_access address
    p ← profile
    fetch_owned (state_owner p address) address role

  -- The two `match`es of `read_data`.
  unfoldable pub read_window : ExternalWindow → ℕ → M ℕ
  read_window (ExternalWindow.ram physical_address) address = read_memory address physical_address
  read_window (ExternalWindow.rtc_register selected) address =
      fail (StepError.mbc3_rtc_register_unavailable selected)
  read_window ExternalWindow.unavailable address = do
    push_event (BusEvent.mbc3_open_bus_read address 0xff)
    pure 0xff

  unfoldable pub read_owned : AddressOwner → ℕ → M ℕ
  read_owned AddressOwner.rom address = fetch address BusRole.data_read
  read_owned AddressOwner.memory address = read_memory address address
  read_owned AddressOwner.input address = read_input
  read_owned AddressOwner.output address = fail StepError.read_from_output_port
  read_owned AddressOwner.dmg_mmio address = read_dmg_mmio address
  read_owned AddressOwner.dmg_echo address = fail (StepError.dmg_echo_unavailable address)
  read_owned AddressOwner.unowned address = fail (StepError.unowned_read address)

  unfoldable pub read_data : ℕ → M ℕ
  read_data address = do
    require_cpu_dma_access address
    require_cpu_ppu_access address
    p ← profile
    m ← mbc3
    if is_dmg_post_boot_mbc3 p && (address == 0xff00)
        then read_dmg_joypad
        else if within 0xa000 0xbfff address
        then read_window (external_window_for m (mbc3_cartridge_profile p) address) address
        else read_owned (state_owner p address) address

  -- The two `match`es of `write_data`.
  unfoldable pub write_window : ExternalWindow → ℕ → ℕ → M Unit
  write_window (ExternalWindow.ram physical_address) address value =
      write_memory address physical_address value
  write_window (ExternalWindow.rtc_register selected) address value =
      fail (StepError.mbc3_rtc_register_unavailable selected)
  write_window ExternalWindow.unavailable address value =
      push_event (BusEvent.mbc3_ignored_write address value)

  unfoldable pub write_owned : AddressOwner → ℕ → ℕ → M Unit
  write_owned AddressOwner.memory address value = write_memory address address value
  write_owned AddressOwner.output address value = write_output value
  write_owned AddressOwner.rom address value = fail (StepError.write_to_rom address)
  write_owned AddressOwner.input address value = fail StepError.write_to_input_port
  write_owned AddressOwner.dmg_mmio address value = write_dmg_mmio address value
  write_owned AddressOwner.dmg_echo address value = fail (StepError.dmg_echo_unavailable address)
  write_owned AddressOwner.unowned address value = fail (StepError.unowned_write address)

  unfoldable pub write_data : ℕ → ℕ → M Unit
  write_data address value = do
    require_cpu_dma_access address
    require_cpu_ppu_access address
    p ← profile
    m ← mbc3
    if leb address 0x7fff
        then write_control address value
        else if within 0xa000 0xbfff address
        then write_window (external_window_for m (mbc3_cartridge_profile p) address) address value
        else write_owned (state_owner p address) address value

  -- The source byte of OAM DMA, by the owner of its address.
  unfoldable pub read_dma_rom : ℕ → M ℕ
  read_dma_rom source = do
    p ← profile
    m ← mbc3
    read ←
        take_rom_read sha256 source (map_rom_for m (mbc3_cartridge_profile p) source)
          BusRole.data_read
    push_event (BusEvent.dmg_dma_rom_read read)
    pure read.value

  unfoldable pub read_dma_memory : (source physical_address : ℕ) → M ℕ
  read_dma_memory source physical_address = do
    read ← take_memory_read sha256 source physical_address BusRole.data_read
    push_event (BusEvent.dmg_dma_memory_read read)
    pure read.value

  unfoldable pub read_dma_window : ExternalWindow → ℕ → M ℕ
  read_dma_window (ExternalWindow.ram physical_address) source =
      read_dma_memory source physical_address
  read_dma_window (ExternalWindow.rtc_register selected) source =
      fail (StepError.mbc3_rtc_register_unavailable selected)
  read_dma_window ExternalWindow.unavailable source =
      fail (StepError.dmg_dma_source_unavailable source)

  unfoldable pub read_dma_source : AddressOwner → ℕ → M ℕ
  read_dma_source AddressOwner.rom source = read_dma_rom source
  read_dma_source AddressOwner.memory source = do
    p ← profile
    m ← mbc3
    if within 0xa000 0xbfff source
        then read_dma_window (external_window_for m (mbc3_cartridge_profile p) source) source
        else read_dma_memory source source
  read_dma_source _ source = fail (StepError.dmg_dma_source_unavailable source)

  unfoldable pub copy_dma_byte : M Unit
  copy_dma_byte = do
    d ← devices
    p ← profile
    value ←
        (if ltb 0xdf9f (dma_source_address d)
          then fail (StepError.dmg_dma_source_unavailable (dma_source_address d))
          else read_dma_source (state_owner p (dma_source_address d)) (dma_source_address d))
    write ← take_memory_write (dma_destination_address d) (dma_destination_address d) value
    authenticate_write sha256 write
    push_event (BusEvent.dmg_dma_write write)
    after ← devices
    set_devices (complete_dma_byte after)
