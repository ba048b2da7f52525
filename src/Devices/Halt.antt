-- ===== src/Devices/Halt.antt =====
-- How far a HALT may skip (crates/zksm83-core/src/dmg.rs).
use zksm.Prelude.{
  ℕ, zero, suc, ◌+◌, ◌-◌, ◌*◌, ◌/◌, ◌%◌, Bool, true, false, not, ◌&&◌, ◌||◌, Option, none, some,
  ltb, ◌==◌, if◌then◌else◌, bit_and, has_bits,
}
use zksm.Timer
use zksm.Devices.State.{Devices, Interrupt, pending_interrupt}
use zksm.Devices.Ppu.{lcd_enabled}
use zksm.Devices.Clock.{advance_m_cycles}

abbrev pub is_pending : Option Interrupt → Bool
is_pending none = false
is_pending (some _) = true

-- The loop over `1..=6`, with the rounds left and the M-cycles elapsed.
unfoldable pub idle_loop : ℕ → ℕ → Devices → ℕ
idle_loop zero elapsed d = 6
idle_loop (suc left) elapsed d =
    let projected = advance_m_cycles 1 d in
    let rest = idle_loop left (elapsed + 1) projected in
    if is_pending (pending_interrupt projected) then elapsed else rest

unfoldable pub halt_idle_m_cycles : Devices → ℕ
unfolding idle_loop
halt_idle_m_cycles d = idle_loop 6 1 d

abbrev line_t_cycles : ℕ
line_t_cycles = 456

abbrev frame_t_cycles : ℕ
frame_t_cycles = 154 * 456

abbrev vblank_t_cycle : ℕ
vblank_t_cycle = 144 * 456

unfoldable pub is_timer_quiet : Devices → Bool
is_timer_quiet d =
    not (has_bits d.timer.control 0x04) && ((d.timer.reload_phase == 0) && not d.timer.edge_latch)

unfoldable pub is_dma_quiet : Devices → Bool
is_dma_quiet d = not d.dma_active && (d.dma_owed == 0)

unfoldable pub may_skip_to_vblank : Devices → Bool
unfolding is_timer_quiet is_dma_quiet
may_skip_to_vblank d =
    not (is_pending (pending_interrupt d))
    && (lcd_enabled d
        && (has_bits d.interrupt_enable 0x01
            && (not (has_bits d.interrupt_enable 0x10)
                && ((d.lcd_status_control == 0)
                    && (is_timer_quiet d
                        && ((d.serial_cycles_remaining == 0)
                            && (not (has_bits d.serial_control 0x80) && is_dma_quiet d)))))))

abbrev remaining_to_vblank : ℕ → ℕ
remaining_to_vblank position =
    if ltb position vblank_t_cycle
    then vblank_t_cycle - position
    else frame_t_cycles - position + vblank_t_cycle

-- `u16::try_from(..).ok()`
abbrev to_u16 : ℕ → Option ℕ
to_u16 n = if ltb n 65536 then some n else none

unfoldable pub halt_until_vblank_m_cycles : Devices → Option ℕ
unfolding may_skip_to_vblank
halt_until_vblank_m_cycles d =
    if not (may_skip_to_vblank d)
    then none
    else let remaining = remaining_to_vblank (d.ppu_line * line_t_cycles + d.ppu_dot) in
      if (remaining == 0) || not (remaining % 4 == 0) then none else to_u16 (remaining / 4)

unfoldable pub may_skip_to_serial : Devices → Bool
unfolding is_timer_quiet is_dma_quiet
may_skip_to_serial d =
    not (is_pending (pending_interrupt d))
    && (has_bits d.interrupt_enable 0x08
        && (not (lcd_enabled d)
            && (is_timer_quiet d
                && ((bit_and d.serial_control 0x81 == 0x81)
                    && (not (d.serial_cycles_remaining == 0)
                        && (not (ltb 4096 d.serial_cycles_remaining)
                            && ((d.serial_cycles_remaining % 4 == 0) && is_dma_quiet d)))))))

unfoldable pub halt_until_serial_m_cycles : Devices → Option ℕ
unfolding may_skip_to_serial
halt_until_serial_m_cycles d =
    if not (may_skip_to_serial d) then none else some (d.serial_cycles_remaining / 4)

unfoldable pub may_skip_to_timer : Devices → Bool
unfolding is_dma_quiet
may_skip_to_timer d =
    not (is_pending (pending_interrupt d))
    && (has_bits d.interrupt_enable 0x04
        && (not (lcd_enabled d)
            && ((d.serial_cycles_remaining == 0)
                && (not (has_bits d.serial_control 0x80) && is_dma_quiet d))))

abbrev rounded_up : Option ℕ → Option ℕ
rounded_up none = none
rounded_up (some t_cycles) =
    if ltb (t_cycles + 3) 0x100000000 then some ((t_cycles + 3) / 4) else none

unfoldable pub halt_until_timer_m_cycles : Devices → Option ℕ
unfolding may_skip_to_timer
halt_until_timer_m_cycles d =
    if not (may_skip_to_timer d) then none else rounded_up (Timer.t_cycles_until_interrupt d.timer)
