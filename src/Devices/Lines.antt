-- ===== src/Devices/Lines.antt =====
-- The joypad lines, the serial countdown and OAM DMA (crates/zksm83-core/src/dmg.rs).
use zksm.Prelude.{
  ℕ, ◌+◌, ◌-◌, ◌*◌, ◌/◌, Bool, false, not, ◌==◌, if◌then◌else◌, bit_and, bit_or, has_bits,
  complement, min,
}
use zksm.Devices.State.{Devices}

unfoldable pub visible_joypad : Devices → ℕ
visible_joypad d =
    let low : ℕ = 0x0f in
    let directions =
      if not (has_bits d.joypad_select 0x10)
      then bit_and low (complement (bit_and d.joypad_buttons 0x0f))
      else low in
    let actions =
      if not (has_bits d.joypad_select 0x20)
      then bit_and directions (complement (bit_and (d.joypad_buttons / 16) 0x0f))
      else directions in
    bit_or (bit_or 0xc0 d.joypad_select) actions

unfoldable pub request_joypad_falling_edge : ℕ → ℕ → Devices → Devices
request_joypad_falling_edge before after d =
    if not (bit_and (bit_and before (complement after)) 0x0f == 0)
    then record d { interrupt_request = bit_or d.interrupt_request 0x10 }
    else d

unfoldable pub sample_joypad : ℕ → Devices → ℕ × Devices
unfolding visible_joypad request_joypad_falling_edge
sample_joypad buttons d =
    let before = visible_joypad d in
    let sampled = record d { joypad_buttons = buttons } in
    let after = visible_joypad sampled in (after, request_joypad_falling_edge before after sampled)

abbrev complete_transfer : Devices → Devices
complete_transfer d =
    if d.serial_cycles_remaining == 0
    then record d {
      serial_control = bit_and d.serial_control 0x7f;
      serial_data = 0xff;
      interrupt_request = bit_or d.interrupt_request 0x08;
    }
    else d

unfoldable pub advance_serial_t_cycles : ℕ → Devices → Devices
advance_serial_t_cycles t_cycles d =
    if d.serial_cycles_remaining == 0
    then d
    else complete_transfer
        (record d { serial_cycles_remaining = d.serial_cycles_remaining - t_cycles })

unfoldable pub dma_source_address : Devices → ℕ
dma_source_address d = bit_or (d.dma_source_high * 256) d.dma_index

unfoldable pub dma_destination_address : Devices → ℕ
dma_destination_address d = bit_or 0xfe00 d.dma_index

-- `160 - index` saturates at 0, as `-` does.
unfoldable pub schedule_dma_bytes : ℕ → Bool → Devices → Devices
schedule_dma_bytes m_cycles active_at_start d =
    if not active_at_start
    then record d { dma_owed = 0 }
    else record d { dma_owed = min m_cycles (160 - d.dma_index) }

unfoldable pub complete_dma_byte : Devices → Devices
complete_dma_byte d =
    let paid = record d { dma_owed = d.dma_owed - 1 } in
    if paid.dma_index == 159
    then record paid { dma_index = 160; dma_active = false }
    else record paid { dma_index = min 255 (paid.dma_index + 1) }
