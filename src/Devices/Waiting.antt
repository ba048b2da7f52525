-- ===== src/Devices/Waiting.antt =====
-- Waiting for a serial transfer of crates/zksm83-core/src/dmg.rs with the screen and the timer off.
use zksm.Prelude.{
  ℕ, zero, suc, ◌+◌, ◌*◌, ◌<◌, ◌≡◌, refl, ap, ◌∙◌, false, arith, bit_or, bit_or-zero, has_bits,
  iterate, if◌then◌else◌, ◌==◌,
}
use zksm.Timer
use zksm.Timer.{Timer}
use zksm.Devices.State.{Devices}
use zksm.Devices.Ppu.{lcd_enabled, advance_ppu_t_cycle}
use zksm.Devices.Lines.{advance_serial_t_cycles}
use zksm.Devices.Clock.{advance_timer, advance_m_cycles}

-- A stopped timer with nothing in its pipeline.
pub record IsStopped (t : Timer) : Type 0 where
  pub disabled : has_bits t.control 0x04 ≡ false
  pub phase_zero : t.reload_phase ≡ 0
  pub latch_low : t.edge_latch ≡ false

tick-IsStopped : (t : Timer) → IsStopped t → ((Timer.tick t).0 ≡ 0) × IsStopped (Timer.tick t).1
unfolding Timer.tick
tick-IsStopped t s = ground arith

advance_loop-IsStopped :
    (n r : ℕ) (t : Timer)
    → IsStopped t
    → ((Timer.advance_loop n r t).0 ≡ r) × IsStopped (Timer.advance_loop n r t).1
unfolding Timer.advance_loop
advance_loop-IsStopped zero r t s = (refl, s)
advance_loop-IsStopped (suc n) r t s =
    let step = tick-IsStopped t s in
    let same : bit_or r (Timer.tick t).0 ≡ r = ap (λ (x : ℕ). bit_or r x) step.0 ∙ bit_or-zero r in
    let rest = advance_loop-IsStopped n (bit_or r (Timer.tick t).0) (Timer.tick t).1 step.1 in
    (rest.0 ∙ same, rest.1)

-- The screen and the timer are off, and a transfer has `left` T-cycles to go.
pub record IsWaiting (left : ℕ) (d : Devices) : Type 0 where
  pub lcd_off : lcd_enabled d ≡ false
  pub timer_off : IsStopped d.timer
  pub remaining : d.serial_cycles_remaining ≡ left

-- What an M-cycle of waiting keeps.
pub record Keeps (d e : Devices) : Type 0 where
  pub request_same : e.interrupt_request ≡ d.interrupt_request
  pub enable_same : e.interrupt_enable ≡ d.interrupt_enable

dot-IsWaiting :
    (left : ℕ) (d : Devices)
    → IsWaiting left d
    → IsWaiting left (advance_ppu_t_cycle d) × Keeps d (advance_ppu_t_cycle d)
unfolding advance_ppu_t_cycle lcd_enabled
dot-IsWaiting left d w = rw (w.lcd_off) (
  record { lcd_off = w.lcd_off; timer_off = w.timer_off; remaining = w.remaining },
  record { request_same = refl; enable_same = refl },
)

dots-IsWaiting :
    (n left : ℕ) (d : Devices)
    → IsWaiting left d
    → IsWaiting left (iterate n advance_ppu_t_cycle d) × Keeps d (iterate n advance_ppu_t_cycle d)
unfolding iterate
dots-IsWaiting zero left d w = (w, record { request_same = refl; enable_same = refl })
dots-IsWaiting (suc n) left d w =
    let here = dot-IsWaiting left d w in
    let rest = dots-IsWaiting n left (advance_ppu_t_cycle d) here.0 in
    (
      rest.0,
      record {
        request_same = rest.1.request_same ∙ here.1.request_same;
        enable_same = rest.1.enable_same ∙ here.1.enable_same;
      },
    )

advance_timer-IsWaiting :
    (n left : ℕ) (d : Devices)
    → IsWaiting left d
    → IsWaiting left (advance_timer n d) × Keeps d (advance_timer n d)
unfolding advance_timer Timer.advance_t_cycles lcd_enabled
advance_timer-IsWaiting n left d w =
    let loop = advance_loop-IsStopped n 0 d.timer w.timer_off in
    (
      record { lcd_off = w.lcd_off; timer_off = loop.1; remaining = w.remaining },
      record {
        request_same =
            ap (λ (x : ℕ). bit_or d.interrupt_request x) loop.0 ∙ bit_or-zero d.interrupt_request;
        enable_same = refl;
      },
    )

-- The serial port over four T-cycles, and what it requests.
serial-IsWaiting :
    (left : ℕ) (d : Devices) → IsWaiting (left + 4) d → IsWaiting left (advance_serial_t_cycles 4 d)
unfolding advance_serial_t_cycles lcd_enabled
serial-IsWaiting left d w =
    let timer_same : (advance_serial_t_cycles 4 d).timer ≡ d.timer = ground arith in
    let lcd_same : (advance_serial_t_cycles 4 d).lcd_control ≡ d.lcd_control = ground arith in
    record {
      lcd_off = rw lcd_same w.lcd_off;
      timer_off = rw timer_same w.timer_off;
      remaining = ground (arith, w.remaining);
    }

request-serial :
    (left : ℕ) (d : Devices)
    → IsWaiting (left + 4) d
    → (advance_serial_t_cycles 4 d).interrupt_request
      ≡ (if left == 0 then bit_or d.interrupt_request 0x08 else d.interrupt_request)
unfolding advance_serial_t_cycles
request-serial left d w = ground (arith, w.remaining)

enable-serial : (d : Devices) → (advance_serial_t_cycles 4 d).interrupt_enable ≡ d.interrupt_enable
unfolding advance_serial_t_cycles
enable-serial d = ground arith

-- One M-cycle of waiting requests the serial interrupt if it is the last.
pub record Waited (left : ℕ) (d e : Devices) : Type 0 where
  pub waiting : IsWaiting left e
  pub request :
      e.interrupt_request
      ≡ (if left == 0 then bit_or d.interrupt_request 0x08 else d.interrupt_request)
  pub enable : e.interrupt_enable ≡ d.interrupt_enable

pub m_cycle :
    (left : ℕ) (d : Devices) → IsWaiting (left + 4) d → Waited left d (advance_m_cycles 1 d)
unfolding advance_m_cycles
m_cycle left d w =
    let timed = advance_timer-IsWaiting 4 (left + 4) d w in
    let between = advance_timer 4 d in
    let sent = serial-IsWaiting left between timed.0 in
    let drawn = dots-IsWaiting 4 left (advance_serial_t_cycles 4 between) sent in
    record {
      waiting = drawn.0;
      request =
          drawn.1.request_same
          ∙ request-serial left between timed.0
          ∙ ap (λ (r : ℕ). if left == 0 then bit_or r 0x08 else r) timed.1.request_same;
      enable = drawn.1.enable_same ∙ enable-serial between ∙ timed.1.enable_same;
    }

positive : (left x y : ℕ) → 0 < left → (if left == 0 then x else y) ≡ y
positive left x y h = ground arith

transport_left : {a b : ℕ} (d : Devices) → a ≡ b → IsWaiting a d → IsWaiting b d
transport_left {a} {b} d e w = record {
  lcd_off = w.lcd_off;
  timer_off = w.timer_off;
  remaining = w.remaining ∙ e;
}

-- Several M-cycles of waiting, short of the last.
pub m_cycles :
    (k left : ℕ) (d : Devices)
    → 0 < left
    → IsWaiting (left + k * 4) d
    → IsWaiting left (iterate k (advance_m_cycles 1) d) × Keeps d (iterate k (advance_m_cycles 1) d)
unfolding iterate
m_cycles zero left d pos w =
    let none : left + 0 * 4 ≡ left = omega arith in
    (transport_left d none w, record { request_same = refl; enable_same = refl })
m_cycles (suc k) left d pos w =
    let more : left + suc k * 4 ≡ left + k * 4 + 4 = omega arith in
    let one = m_cycle (left + k * 4) d (transport_left d more w) in
    let rest = m_cycles k left (advance_m_cycles 1 d) pos one.waiting in
    (
      rest.0,
      record {
        request_same =
            rest.1.request_same ∙ one.request ∙ positive (left + k * 4) _ _ (omega arith);
        enable_same = rest.1.enable_same ∙ one.enable;
      },
    )
