-- ===== src/Examples.antt =====
-- Concrete instances of the theorems, on inputs that run the code.
pub mod Memory
pub mod Machine
use zksm.Prelude.{
  ℕ, ◌+◌, ◌*◌, ◌^◌, ◌≡◌, ◌<◌, ◌≤◌, ◌↔◌, ◌⊎◌, min, true, false, some, ok, err, refl, arith, iterate,
  of_bool,
}
use zksm.Isa.Types.{CbOperation, OpcodeClassification}
use zksm.Isa.Decode.{decode_primary, decode_cb, decode_defined_primary}
use zksm.Isa.Encode.{encode}
use zksm.Isa.Table.{
  is_stop, decode_primary-encode, decode_cb-encode, decode_primary-timing, from_decoded-packed,
}
use zksm.Isa.Alignment.Rows.{AlignedInstruction, from_decoded, packed}
use zksm.Isa.Alignment.Packing.{packed_injective}
use zksm.Flags.{Flags, carry_flag, half_carry_flag, zero_flag, subtract_flag}
use zksm.Alu.{add, subtract, add_hl, decimal_adjust}
use zksm.Alu.Arithmetic.{add_exact, subtract_exact, add_hl_exact}
use zksm.Alu.Decimal.{decimal_adjust-add, decimal_adjust-subtract}
use zksm.Alu.Rotate.{rotated_twice, rotate_shift_undo, through_left}
use zksm.Mapper.{
  Mapper, max_bank, one_mib_no_rtc, byte_length, ram, invalid_rom_bank, invalid_ram_rtc_select,
  from_profile_parts, map_rom_for, external_window_for, apply_control_write_for,
}
use zksm.Mapper.Banks
use zksm.Timer.{Timer, timer_interrupt, t_cycles_until_interrupt, advance_t_cycles}
use zksm.Timer.Shape
use zksm.Timer.Interrupt.{raised_next, t_cycles_until_interrupt_exact}
use zksm.Devices.State.{Devices, Interrupt, bit, pending_interrupt, acknowledge_interrupt}
use zksm.Devices.State
use zksm.Devices.Shape as DevicesShape
use zksm.Devices.Halt.{halt_idle_m_cycles, halt_until_serial_m_cycles}
use zksm.Devices.Ppu.{lcd_enabled}
use zksm.Devices.SerialHalt.{halt_until_serial_m_cycles-exact}
use zksm.Devices.Idle.{pending_after, halt_idle_m_cycles-first}
use zksm.Devices.Clock.{advance_m_cycles, advance_quiet_long}
use zksm.Devices.Advance.{advance_m_cycles-add, advance_quiet_long-iterate}
use zksm.Devices.Interrupts.{line, pending_interrupt-first, acknowledge_interrupt-line}

abbrev carry_only : Flags
carry_only = record { byte = 0x10 }

add_exact_example :
    let r = add 200 100 true in
    (r.value + of_bool (carry_flag r.flags) * 256 ≡ 301)
    × (half_carry_flag r.flags ≡ false)
    × ((zero_flag r.flags ≡ true) ↔ (r.value ≡ 0))
    × (subtract_flag r.flags ≡ false)
add_exact_example = add_exact 200 100 true (omega arith) (omega arith)

subtract_exact_example :
    let r = subtract 5 7 false in
    (r.value + 7 + 0 ≡ 5 + of_bool (carry_flag r.flags) * 256)
    × (half_carry_flag r.flags ≡ true)
    × ((zero_flag r.flags ≡ true) ↔ (r.value ≡ 0))
    × (subtract_flag r.flags ≡ true)
subtract_exact_example = subtract_exact 5 7 false (omega arith) (omega arith)

add_hl_exact_example :
    let r = add_hl 0xffff 1 carry_only in
    (r.value + of_bool (carry_flag r.flags) * 65536 ≡ 65536)
    × (half_carry_flag r.flags ≡ true)
    × (zero_flag r.flags ≡ zero_flag carry_only)
    × (subtract_flag r.flags ≡ false)
add_hl_exact_example = add_hl_exact 0xffff 1 carry_only (omega arith) (omega arith)

decimal_adjust-add_example :
    let s = add 0x45 0x38 false in
    let r = decimal_adjust s.value s.flags in (r.value ≡ 0x83) × (carry_flag r.flags ≡ false)
decimal_adjust-add_example = decimal_adjust-add 45 38 false (omega arith) (omega arith)

decimal_adjust-subtract_example :
    let s = subtract 0x12 0x38 false in
    let r = decimal_adjust s.value s.flags in (r.value ≡ 0x74) × (carry_flag r.flags ≡ true)
decimal_adjust-subtract_example = decimal_adjust-subtract 12 38 false (omega arith) (omega arith)

rotate_shift_undo_example :
    rotated_twice CbOperation.rotate_left CbOperation.rotate_right 0x95 true false ≡ some 0x95
rotate_shift_undo_example = rotate_shift_undo 0x95 true false through_left (omega arith)

abbrev bank_three : Mapper
bank_three = record { ram_enabled = true; rom_bank = 3; ram_rtc_select = 2 }

bank_three-IsValid : Banks.IsValid one_mib_no_rtc bank_three
unfolding max_bank
bank_three-IsValid = record {
  bank_pos = omega arith;
  bank_le = omega arith;
  select_le = omega arith;
}

from_profile_parts-eq-ok_iff_example :
    ((from_profile_parts one_mib_no_rtc true 3 2 ≡ ok bank_three) ↔ (
      Banks.IsValid one_mib_no_rtc bank_three
      × (bank_three.ram_enabled ≡ true)
      × (bank_three.rom_bank ≡ 3)
      × (bank_three.ram_rtc_select ≡ 2)))
    × ((from_profile_parts one_mib_no_rtc true 3 2 ≡ err (invalid_rom_bank 3)) ↔ (
        ((invalid_rom_bank 3 ≡ invalid_rom_bank 3)
          × ((◌≡◌ {A = ℕ} 3 0) ⊎ (max_bank one_mib_no_rtc.rom_size < 3)))
        ⊎ ((invalid_rom_bank 3 ≡ invalid_ram_rtc_select 2)
            × (0 < 3)
            × (3 ≤ max_bank one_mib_no_rtc.rom_size)
            × (0x0f < 2))))
from_profile_parts-eq-ok_iff_example =
    Banks.from_profile_parts-eq-ok_iff one_mib_no_rtc true 3 2 bank_three (invalid_rom_bank 3)

apply_control_write_for-IsValid_example :
    Banks.IsValid one_mib_no_rtc (apply_control_write_for one_mib_no_rtc 0x2100 0x80 bank_three)
apply_control_write_for-IsValid_example =
    Banks.apply_control_write_for-IsValid one_mib_no_rtc 0x2100 0x80 bank_three bank_three-IsValid

map_rom_for-lt_example :
    map_rom_for bank_three one_mib_no_rtc 0x7fff < byte_length one_mib_no_rtc.rom_size
map_rom_for-lt_example =
    Banks.map_rom_for-lt one_mib_no_rtc 0x7fff bank_three bank_three-IsValid (omega arith)

map_rom_for_injective_example : (◌≡◌ {A = ℕ} 0x4001 0x4001) × (◌≡◌ {A = ℕ} 3 3)
map_rom_for_injective_example =
    Banks.map_rom_for_injective one_mib_no_rtc one_mib_no_rtc 0x4001 0x4001 bank_three bank_three
      (omega arith) (omega arith) (omega arith) (omega arith) refl

window_of_bank_two : external_window_for bank_three one_mib_no_rtc 0xa010 ≡ ram 0x14010
unfolding external_window_for
window_of_bank_two = refl

external_window_for-ram_example :
    (0x10000 ≤ 0x14010)
    × (0x14010 < 0x18000)
    × (bank_three.ram_enabled ≡ true)
    × (◌≡◌ {A = ℕ} 0xa010 0xa010)
    × (◌≡◌ {A = ℕ} 2 2)
external_window_for-ram_example =
    Banks.external_window_for-ram one_mib_no_rtc one_mib_no_rtc 0xa010 0xa010 0x14010 bank_three
      bank_three window_of_bank_two window_of_bank_two

-- TAC 5 two ticks before the counter overflows.
abbrev fast_timer : Timer
fast_timer = record {
  raw_div = 14;
  counter = 0xff;
  modulo = 0x20;
  control = 5;
  edge_latch = true;
  reload_phase = 0;
}

fast_timer-IsValid : Shape.IsValid fast_timer
fast_timer-IsValid = record {
  raw_div_lt = omega arith;
  counter_lt = omega arith;
  modulo_lt = omega arith;
  control_lt = omega arith;
  phase_le = omega arith;
}

fast_timer_distance : t_cycles_until_interrupt fast_timer ≡ some 7
unfolding t_cycles_until_interrupt
fast_timer_distance = refl

t_cycles_until_interrupt_exact_example : raised_next 6 fast_timer ≡ timer_interrupt
t_cycles_until_interrupt_exact_example =
    t_cycles_until_interrupt_exact fast_timer 7 6 fast_timer-IsValid fast_timer_distance
      (omega arith)

advance_m_cycles-add_example :
    advance_m_cycles 40 (advance_m_cycles 20 State.dmg_post_boot)
    ≡ advance_m_cycles 60 State.dmg_post_boot
advance_m_cycles-add_example = advance_m_cycles-add 20 40 State.dmg_post_boot (omega arith)

advance_quiet_long-iterate_example :
    advance_quiet_long 200 State.dmg_post_boot
    ≡ iterate 200 (advance_m_cycles 1) State.dmg_post_boot
advance_quiet_long-iterate_example = advance_quiet_long-iterate 200 State.dmg_post_boot

-- The LCD STAT and timer interrupts are requested; the V-blank one is not enabled.
abbrev two_requests : Devices
two_requests = record State.dmg_post_boot { interrupt_request = 0x07; interrupt_enable = 0x06 }

lcd_stat_pending : pending_interrupt two_requests ≡ some Interrupt.lcd_stat
unfolding pending_interrupt
lcd_stat_pending = refl

pending_interrupt-first_example :
    (line Interrupt.lcd_stat 0x07 ≡ 1)
    × (line Interrupt.lcd_stat 0x06 ≡ 1)
    × ((bit Interrupt.lcd_stat ≤ bit Interrupt.v_blank)
        ⊎ (min (line Interrupt.v_blank 0x07) (line Interrupt.v_blank 0x06) ≡ 0))
pending_interrupt-first_example =
    pending_interrupt-first two_requests Interrupt.lcd_stat Interrupt.v_blank lcd_stat_pending

acknowledge_interrupt-line_example :
    (line Interrupt.lcd_stat
        (acknowledge_interrupt Interrupt.lcd_stat two_requests).interrupt_request
      ≡ 0)
    × (line Interrupt.timer
          (acknowledge_interrupt Interrupt.lcd_stat two_requests).interrupt_request
        ≡ line Interrupt.timer 0x07)
unfolding bit
acknowledge_interrupt-line_example =
    acknowledge_interrupt-line two_requests Interrupt.lcd_stat Interrupt.timer (omega arith)
      (omega arith)

-- LD A,(HL+)
decode_primary_2a : decode_primary 0x2a ≡ OpcodeClassification.defined (decode_defined_primary 0x2a)
unfolding decode_primary
decode_primary_2a = refl

decode_primary-encode_example : encode (decode_defined_primary 0x2a).operation ≡ 0x2a
decode_primary-encode_example =
    decode_primary-encode 0x2a (decode_defined_primary 0x2a) (omega arith) decode_primary_2a

decode_cb-encode_example : encode (decode_cb 0x7c).operation ≡ 0x7c
decode_cb-encode_example = decode_cb-encode 0x7c (omega arith)

decode_primary-timing_example :
    let i = decode_defined_primary 0x2a in
    (i.bus.opcode_fetches + i.bus.immediate_reads ≡ i.byte_len)
    × ((is_stop i.operation ≡ true)
        ⊎ (i.byte_len + i.bus.data_reads + i.bus.data_writes ≤ i.timing.base_m_cycles))
decode_primary-timing_example =
    decode_primary-timing 0x2a (decode_defined_primary 0x2a) (omega arith) decode_primary_2a

from_decoded-packed_example :
    ((w : ℕ) × (packed (from_decoded (decode_defined_primary 0x2a)) ≡ ok w) × (w < 2 ^ 106))
    × ((w : ℕ) × (packed (from_decoded (decode_cb 0x2a)) ≡ ok w) × (w < 2 ^ 106))
from_decoded-packed_example = from_decoded-packed 0x2a (omega arith)

abbrev nop_row : AlignedInstruction
nop_row = from_decoded (decode_defined_primary 0)

nop_row_packs : (w : ℕ) × (packed nop_row ≡ ok w) × (w < 2 ^ 106)
nop_row_packs = (from_decoded-packed 0 (omega arith)).0

packed_injective_example : nop_row ≡ nop_row
packed_injective_example =
    packed_injective nop_row nop_row nop_row_packs.0 nop_row_packs.1 nop_row_packs.1

post_boot-IsValid : DevicesShape.IsValid State.dmg_post_boot
post_boot-IsValid = record {
  line_lt = omega arith;
  dot_lt = omega arith;
  request_lt = omega arith;
  serial_le = omega arith;
  timer_valid = record {
    raw_div_lt = omega arith;
    counter_lt = omega arith;
    modulo_lt = omega arith;
    control_lt = omega arith;
    phase_le = omega arith;
  };
}

advance_m_cycles-IsValid_example : DevicesShape.IsValid (advance_m_cycles 17 State.dmg_post_boot)
advance_m_cycles-IsValid_example =
    DevicesShape.advance_m_cycles-IsValid 17 State.dmg_post_boot post_boot-IsValid

halt_idle_m_cycles-first_example :
    (0 < halt_idle_m_cycles two_requests)
    × (halt_idle_m_cycles two_requests ≤ 6)
    × ((halt_idle_m_cycles two_requests ≡ 6)
        ⊎ (pending_after (halt_idle_m_cycles two_requests) two_requests ≡ true))
    × ((◌≡◌ {A = ℕ} 2 0)
        ⊎ ((halt_idle_m_cycles two_requests ≤ 2) ⊎ (pending_after 2 two_requests ≡ false)))
halt_idle_m_cycles-first_example = halt_idle_m_cycles-first two_requests 2

-- Two M-cycles before the end of a transfer, with the screen off and the serial interrupt enabled.
abbrev sending : Devices
sending = record State.empty {
  interrupt_enable = 0x08;
  serial_control = 0x81;
  serial_cycles_remaining = 8;
}

sending_skip : halt_until_serial_m_cycles sending ≡ some 2
unfolding halt_until_serial_m_cycles pending_interrupt lcd_enabled
sending_skip = refl

halt_until_serial_m_cycles-exact_example : pending_after 2 sending ≡ true
halt_until_serial_m_cycles-exact_example =
    halt_until_serial_m_cycles-exact sending 2 2 sending_skip (omega arith)
