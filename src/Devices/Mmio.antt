-- ===== src/Devices/Mmio.antt =====
-- Reads and writes of the device registers (crates/zksm83-core/src/dmg.rs).
use zksm.Prelude.{
  ℕ, Bool, true, not, ◌||◌, Option, none, some, ◌==◌, within, if◌then◌else◌, bit_and, bit_or,
}
use zksm.Timer
use zksm.Timer.{Timer}
use zksm.Apu
use zksm.Apu.{Apu}
use zksm.Devices.State.{Devices}
use zksm.Devices.Ppu.{lcd_enabled, visible_lcd_status, stat_signal, request_stat_rising_edge}
use zksm.Devices.Lines.{visible_joypad, request_joypad_falling_edge}

-- 0xff40 to 0xff4b, and 0xffff.
unfoldable pub read_video : ℕ → Devices → Option ℕ
read_video address d =
    if address == 0xff40
    then some d.lcd_control
    else if address == 0xff41
    then some (visible_lcd_status d)
    else if address == 0xff42
    then some d.scroll_y
    else if address == 0xff43
    then some d.scroll_x
    else if address == 0xff44
    then some d.ppu_line
    else if address == 0xff45
    then some d.line_compare
    else if address == 0xff46
    then some d.dma_source_high
    else if address == 0xff47
    then some d.background_palette
    else if address == 0xff48
    then some d.object_palette_zero
    else if address == 0xff49
    then some d.object_palette_one
    else if address == 0xff4a
    then some d.window_y
    else if address == 0xff4b
    then some d.window_x
    else if address == 0xffff
    then some d.interrupt_enable
    else none

unfoldable pub read_mmio : ℕ → Devices → Option ℕ
unfolding read_video
read_mmio address d =
    if address == 0xff00
    then some (visible_joypad d)
    else if address == 0xff01
    then some d.serial_data
    else if address == 0xff02
    then some d.serial_control
    else if within 0xff04 0xff07 address
    then Timer.read address d.timer
    else if address == 0xff0f
    then some (bit_or 0xe0 d.interrupt_request)
    else if within 0xff10 0xff3f address
    then Apu.read address d.apu
    else read_video address d

unfoldable pub write_lcd_control : ℕ → Devices → Devices
write_lcd_control value d =
    let written = record d { lcd_control = value } in
    if not (lcd_enabled written) then record written { ppu_line = 0; ppu_dot = 0 } else written

unfoldable pub write_joypad_select : ℕ → ℕ → Devices → Devices
write_joypad_select before value d =
    let written = record d { joypad_select = bit_and value 0x30 } in
    request_joypad_falling_edge before (visible_joypad written) written

unfoldable pub write_serial_control : ℕ → Devices → Devices
write_serial_control value d = record d {
  serial_control = value;
  serial_cycles_remaining = if bit_and value 0x81 == 0x81 then 4096 else 0;
}

unfoldable pub start_dma : ℕ → Devices → Devices
start_dma value d = record d {
  dma_source_high = value;
  dma_index = 0;
  dma_active = true;
  dma_owed = 0;
}

-- The arms of `write_mmio` for 0xff40 to 0xff4b, and 0xffff.
unfoldable pub write_video : ℕ → ℕ → Devices → Option Devices
unfolding write_lcd_control start_dma
write_video address value d =
    if address == 0xff40
    then some (write_lcd_control value d)
    else if address == 0xff41
    then some (record d { lcd_status_control = bit_and value 0x78 })
    else if address == 0xff42
    then some (record d { scroll_y = value })
    else if address == 0xff43
    then some (record d { scroll_x = value })
    else if address == 0xff44
    then some d
    else if address == 0xff45
    then some (record d { line_compare = value })
    else if address == 0xff46
    then some (start_dma value d)
    else if address == 0xff47
    then some (record d { background_palette = value })
    else if address == 0xff48
    then some (record d { object_palette_zero = value })
    else if address == 0xff49
    then some (record d { object_palette_one = value })
    else if address == 0xff4a
    then some (record d { window_y = value })
    else if address == 0xff4b
    then some (record d { window_x = value })
    else if address == 0xffff
    then some (record d { interrupt_enable = bit_and value 0x1f })
    else none

-- The arms of `write_mmio` that do not return early.
unfoldable pub write_register : ℕ → ℕ → ℕ → Devices → Option Devices
unfolding write_joypad_select write_serial_control write_video
write_register before address value d =
    if address == 0xff00
    then some (write_joypad_select before value d)
    else if address == 0xff01
    then some (record d { serial_data = value })
    else if address == 0xff02
    then some (write_serial_control value d)
    else if address == 0xff0f
    then some (record d { interrupt_request = bit_and value 0x1f })
    else write_video address value d

abbrev store_timer : Devices → Option (ℕ × Timer) → Option (ℕ × Devices)
store_timer d none = none
store_timer d (some (before, t)) = some (before, record d { timer = t })

abbrev store_apu : Devices → Option (ℕ × Apu) → Option (ℕ × Devices)
store_apu d none = none
store_apu d (some (before, a)) = some (before, record d { apu = a })

-- The STAT line is looked at again after a write of LCDC, STAT or LYC.
abbrev after_write : ℕ → ℕ → Bool → Option Devices → Option (ℕ × Devices)
after_write before address stat_before none = none
after_write before address stat_before (some d) = some (
  before,
  if (address == 0xff40) || ((address == 0xff41) || (address == 0xff45))
      then request_stat_rising_edge stat_before d
      else d,
)

abbrev write_read : ℕ → ℕ → Devices → Option ℕ → Option (ℕ × Devices)
write_read address value d none = none
write_read address value d (some before) =
    if within 0xff04 0xff07 address
    then store_timer d (Timer.write address value d.timer)
    else if within 0xff10 0xff3f address
    then store_apu d (Apu.write address value d.apu)
    else after_write before address (stat_signal d) (write_register before address value d)

unfoldable pub write_mmio : ℕ → ℕ → Devices → Option (ℕ × Devices)
unfolding read_mmio write_register
write_mmio address value d = write_read address value d (read_mmio address d)
