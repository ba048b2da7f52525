-- ===== src/Devices/Shape.antt =====
-- The ranges of the device counters of crates/zksm83-core/src/dmg.rs.
use zksm.Prelude.{
  ℕ, zero, suc, ◌≤◌, ◌<◌, ◌≡◌, arith, bit_or, bit_or-lt_pow, iterate, Bool, true, false,
  if◌then◌else◌,
}
use zksm.Timer
use zksm.Timer.Shape
use zksm.Timer.{Timer}
use zksm.Devices.State.{Devices}
use zksm.Devices.Ppu.{advance_dot, request_stat_rising_edge, advance_ppu_t_cycle, stat_signal}
use zksm.Devices.Lines.{advance_serial_t_cycles}
use zksm.Devices.Clock.{advance_timer, advance_m_cycles, t_cycles_of}

-- A frame has 154 lines of 456 dots; there are five interrupts; a transfer takes 4096 T-cycles.
pub record IsValid (d : Devices) : Type 0 where
  pub line_lt : d.ppu_line < 154
  pub dot_lt : d.ppu_dot < 456
  pub request_lt : d.interrupt_request < 32
  pub serial_le : d.serial_cycles_remaining ≤ 4096
  pub timer_valid : Timer.Shape.IsValid d.timer

or_lt_32 : (a b : ℕ) → a < 32 → b < 32 → bit_or a b < 32
or_lt_32 a b ha hb = bit_or-lt_pow 5 a b ha hb

timer-advance_dot : (d : Devices) → (advance_dot d).timer ≡ d.timer
unfolding advance_dot
timer-advance_dot d = ground arith

advance_dot-IsValid : (d : Devices) → IsValid d → IsValid (advance_dot d)
unfolding advance_dot
advance_dot-IsValid d v = record {
  line_lt = ground (arith, v.line_lt, v.dot_lt);
  dot_lt = ground (arith, v.line_lt, v.dot_lt);
  request_lt = ground (arith, v.request_lt, or_lt_32 d.interrupt_request 1);
  serial_le = ground (arith, v.serial_le);
  timer_valid = rw (timer-advance_dot d) v.timer_valid;
}

timer-stat_edge :
    (before : Bool) (d : Devices) → (request_stat_rising_edge before d).timer ≡ d.timer
unfolding request_stat_rising_edge
timer-stat_edge before d = ground arith

request_stat_rising_edge-IsValid :
    (before : Bool) (d : Devices) → IsValid d → IsValid (request_stat_rising_edge before d)
unfolding request_stat_rising_edge
request_stat_rising_edge-IsValid before d v = record {
  line_lt = ground (arith, v.line_lt);
  dot_lt = ground (arith, v.dot_lt);
  request_lt = ground (arith, v.request_lt, or_lt_32 d.interrupt_request 2);
  serial_le = ground (arith, v.serial_le);
  timer_valid = rw (timer-stat_edge before d) v.timer_valid;
}

switched_off : (d : Devices) → IsValid d → IsValid (record d { ppu_line = 0; ppu_dot = 0 })
switched_off d v = record {
  line_lt = omega arith;
  dot_lt = omega arith;
  request_lt = v.request_lt;
  serial_le = v.serial_le;
  timer_valid = v.timer_valid;
}

either : (test : Bool) (x y : Devices) → IsValid x → IsValid y → IsValid (if test then x else y)
either true x y p q = p
either false x y p q = q

advance_ppu_t_cycle-IsValid : (d : Devices) → IsValid d → IsValid (advance_ppu_t_cycle d)
unfolding advance_ppu_t_cycle
advance_ppu_t_cycle-IsValid d v =
    either _ _ _ (switched_off d v)
      (request_stat_rising_edge-IsValid (stat_signal d) (advance_dot d) (advance_dot-IsValid d v))

timer-serial : (n : ℕ) (d : Devices) → (advance_serial_t_cycles n d).timer ≡ d.timer
unfolding advance_serial_t_cycles
timer-serial n d = ground arith

advance_serial_t_cycles-IsValid :
    (n : ℕ) (d : Devices) → IsValid d → IsValid (advance_serial_t_cycles n d)
unfolding advance_serial_t_cycles
advance_serial_t_cycles-IsValid n d v = record {
  line_lt = ground (arith, v.line_lt);
  dot_lt = ground (arith, v.dot_lt);
  request_lt = ground (arith, v.request_lt, or_lt_32 d.interrupt_request 8);
  serial_le = ground (arith, v.serial_le);
  timer_valid = rw (timer-serial n d) v.timer_valid;
}

tick-raised : (t : Timer) → (Timer.tick t).0 < 32
unfolding Timer.tick
tick-raised t = ground arith

advance_loop-raised : (n r : ℕ) (t : Timer) → r < 32 → (Timer.advance_loop n r t).0 < 32
unfolding Timer.advance_loop
advance_loop-raised zero r t h = h
advance_loop-raised (suc n) r t h =
    advance_loop-raised n _ (Timer.tick t).1 (or_lt_32 r (Timer.tick t).0 h (tick-raised t))

raised : (n : ℕ) (t : Timer) → (Timer.advance_t_cycles n t).0 < 32
unfolding Timer.advance_t_cycles
raised n t = advance_loop-raised n 0 t (omega arith)

advance_timer-IsValid : (n : ℕ) (d : Devices) → IsValid d → IsValid (advance_timer n d)
unfolding advance_timer
advance_timer-IsValid n d v = record {
  line_lt = v.line_lt;
  dot_lt = v.dot_lt;
  request_lt = or_lt_32 d.interrupt_request _ v.request_lt (raised n d.timer);
  serial_le = v.serial_le;
  timer_valid = Timer.Shape.advance_t_cycles-IsValid n d.timer v.timer_valid;
}

iterate-IsValid : (n : ℕ) (d : Devices) → IsValid d → IsValid (iterate n advance_ppu_t_cycle d)
unfolding iterate
iterate-IsValid zero d v = v
iterate-IsValid (suc n) d v =
    iterate-IsValid n (advance_ppu_t_cycle d) (advance_ppu_t_cycle-IsValid d v)

-- Any number of M-cycles keeps the line, the dot, the interrupt requests, the serial count and the
-- timer of the devices in range.
pub advance_m_cycles-IsValid :
    (m_cycles : ℕ) (d : Devices) → IsValid d → IsValid (advance_m_cycles m_cycles d)
unfolding advance_m_cycles
advance_m_cycles-IsValid m_cycles d v =
    let t_cycles = t_cycles_of m_cycles in
    iterate-IsValid t_cycles _
      (advance_serial_t_cycles-IsValid t_cycles _ (advance_timer-IsValid t_cycles d v))
