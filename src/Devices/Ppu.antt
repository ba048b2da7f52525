-- ===== src/Devices/Ppu.antt =====
-- The line and dot counters, the PPU mode and the STAT line (crates/zksm83-core/src/dmg.rs).
use zksm.Prelude.{
  ℕ, ◌+◌, Bool, false, not, ◌&&◌, ◌||◌, ltb, leb, ◌==◌, if◌then◌else◌, bit_or, has_bits,
}
use zksm.Devices.State.{Devices}

unfoldable pub lcd_enabled : Devices → Bool
lcd_enabled d = has_bits d.lcd_control 0x80

unfoldable pub ppu_mode : Devices → ℕ
unfolding lcd_enabled
ppu_mode d =
    if not (lcd_enabled d)
    then 0
    else if leb 144 d.ppu_line
    then 1
    else if ltb d.ppu_dot 80
    then 2
    else if ltb d.ppu_dot 252
    then 3
    else 0

unfoldable pub visible_lcd_status : Devices → ℕ
unfolding ppu_mode
visible_lcd_status d =
    let coincidence = if d.ppu_line == d.line_compare then 0x04 else 0 in
    bit_or (bit_or (bit_or 0x80 d.lcd_status_control) coincidence) (ppu_mode d)

unfoldable pub stat_signal : Devices → Bool
unfolding ppu_mode
stat_signal d =
    if not (lcd_enabled d)
    then false
    else let mode = ppu_mode d in
      (has_bits d.lcd_status_control 0x08 && (mode == 0))
      || ((has_bits d.lcd_status_control 0x10 && (mode == 1))
          || ((has_bits d.lcd_status_control 0x20 && (mode == 2))
              || (has_bits d.lcd_status_control 0x40 && (d.ppu_line == d.line_compare))))

unfoldable pub request_stat_rising_edge : Bool → Devices → Devices
request_stat_rising_edge before d =
    if not before && stat_signal d
    then record d { interrupt_request = bit_or d.interrupt_request 0x02 }
    else d

abbrev next_line : ℕ → ℕ
next_line line = if line == 153 then 0 else line + 1

abbrev enter_line : Devices → Devices
enter_line d =
    let moved = record d { ppu_dot = 0; ppu_line = next_line d.ppu_line } in
    if moved.ppu_line == 144
    then record moved { interrupt_request = bit_or moved.interrupt_request 0x01 }
    else moved

-- The dot counter moves on, and into the next line after dot 455.
unfoldable pub advance_dot : Devices → Devices
advance_dot d =
    let moved = record d { ppu_dot = d.ppu_dot + 1 } in
    if moved.ppu_dot == 456 then enter_line moved else moved

unfoldable pub advance_ppu_t_cycle : Devices → Devices
advance_ppu_t_cycle d =
    if not (lcd_enabled d)
    then record d { ppu_line = 0; ppu_dot = 0 }
    else request_stat_rising_edge (stat_signal d) (advance_dot d)

unfoldable pub cpu_vram_blocked : Devices → Bool
unfolding ppu_mode
cpu_vram_blocked d = lcd_enabled d && (ppu_mode d == 3)

unfoldable pub cpu_oam_blocked : Devices → Bool
unfolding ppu_mode
cpu_oam_blocked d = lcd_enabled d && ((ppu_mode d == 2) || (ppu_mode d == 3))
