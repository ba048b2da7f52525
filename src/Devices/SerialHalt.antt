-- ===== src/Devices/SerialHalt.antt =====
-- `halt_until_serial_m_cycles` of crates/zksm83-core/src/dmg.rs against single M-cycles.
use zksm.Prelude.{
  ℕ, zero, suc, ◌-◌, ◌*◌, ◌%◌, ◌/◌, ◌<◌, ◌≤◌, ◌≡◌, ◌⊎◌, inl, inr, refl, sym, ◌∙◌, true, false, some,
  arith, bit_or, bit_or_step, bit_and, has_bits, iterate, ◌==◌, and_bit_3,
}
use zksm.Devices.State.{Interrupt, bit, Devices, pending_interrupt, first_pending}
use zksm.Devices.Ppu.{lcd_enabled}
use zksm.Devices.Clock.{advance_m_cycles}
use zksm.Devices.Halt.{is_pending, is_timer_quiet, may_skip_to_serial, halt_until_serial_m_cycles}
use zksm.Devices.Interrupts.{line, line-bit_and}
use zksm.Devices.Idle.{pending_after}
use zksm.Devices.Waiting.{IsStopped, IsWaiting, Keeps, m_cycle, m_cycles}

-- What the test for the skip has found.
record MaySkip (d : Devices) : Type 0 where
  silent : is_pending (pending_interrupt d) ≡ false
  enabled : has_bits d.interrupt_enable 0x08 ≡ true
  lcd_off : lcd_enabled d ≡ false
  timer_off : IsStopped d.timer
  positive_count : 0 < d.serial_cycles_remaining
  whole : d.serial_cycles_remaining % 4 ≡ 0

may_skip_lem : (d : Devices) → may_skip_to_serial d ≡ true → MaySkip d
unfolding may_skip_to_serial is_timer_quiet
may_skip_lem d h = ground arith

skip_count :
    (d : Devices) (n : ℕ)
    → halt_until_serial_m_cycles d ≡ some n
    → (may_skip_to_serial d ≡ true) × (n ≡ d.serial_cycles_remaining / 4)
unfolding halt_until_serial_m_cycles
skip_count d n h = ground arith

same_pending :
    (d e : Devices)
    → Keeps d e
    → is_pending (pending_interrupt e) ≡ is_pending (pending_interrupt d)
unfolding pending_interrupt
same_pending d e k = rw (k.request_same, k.enable_same) refl

serial_digit : (r : ℕ) → bit_or r 8 / 8 % 2 ≡ 1
serial_digit r = omega (
  arith,
  bit_or_step r 8,
  bit_or_step (r / 2) 4,
  bit_or_step (r / 2 / 2) 2,
  bit_or_step (r / 2 / 2 / 2) 1,
)

serial_bit_pending : (m : ℕ) → m / 8 % 2 ≡ 1 → is_pending (first_pending m) ≡ true
unfolding first_pending
serial_bit_pending m h = ground (arith, and_bit_3 m)

requested_pending :
    (e : Devices) (r : ℕ)
    → e.interrupt_request ≡ bit_or r 0x08
    → has_bits e.interrupt_enable 0x08 ≡ true
    → is_pending (pending_interrupt e) ≡ true
unfolding pending_interrupt line bit
requested_pending e r h on =
    let requested = serial_digit r in
    let enabled : e.interrupt_enable / 8 % 2 ≡ 1 = ground (arith, and_bit_3 e.interrupt_enable) in
    let both = line-bit_and Interrupt.serial (bit_or r 0x08) e.interrupt_enable in
    rw h (
      serial_bit_pending (bit_and (bit_or r 0x08) e.interrupt_enable)
        (omega (arith, both, requested, enabled)))

equal_to_itself : (n : ℕ) → (n == n) ≡ true
equal_to_itself n = ground arith

below_differs : (k n : ℕ) → k < n → (k == n) ≡ false
below_differs k n h = ground arith

iterate-suc :
    (n : ℕ) (f : Devices → Devices) (d : Devices) → iterate (suc n) f d ≡ f (iterate n f d)
unfolding iterate
iterate-suc zero f d = refl
iterate-suc (suc n) f d = iterate-suc n f (f d)

start_waiting :
    (left : ℕ) (d : Devices) → MaySkip d → d.serial_cycles_remaining ≡ left → IsWaiting left d
start_waiting left d m e = record { lcd_off = m.lcd_off; timer_off = m.timer_off; remaining = e }

silent_before :
    (d : Devices) (n k : ℕ)
    → MaySkip d
    → d.serial_cycles_remaining ≡ n * 4
    → k < n
    → pending_after k d ≡ false
silent_before d n k m count lt =
    let run = m_cycles k ((n - k) * 4) d (omega arith) (start_waiting _ d m (omega arith)) in
    same_pending d (iterate k (advance_m_cycles 1) d) run.1 ∙ m.silent

pending_at :
    (d : Devices) (n : ℕ)
    → MaySkip d
    → d.serial_cycles_remaining ≡ suc n * 4
    → pending_after (suc n) d ≡ true
pending_at d n m count =
    let run = m_cycles n 4 d (omega arith) (start_waiting _ d m (omega arith)) in
    let before = iterate n (advance_m_cycles 1) d in
    let last = m_cycle 0 before run.0 in
    rw (iterate-suc n (advance_m_cycles 1) d) (
      requested_pending (advance_m_cycles 1 before) before.interrupt_request last.request
        (rw (last.enable, run.1.enable_same) m.enabled))

-- When the HALT skip to serial completion is n M-cycles, no interrupt is pending after fewer
-- single M-cycles of all the devices, and one is after n.
pub halt_until_serial_m_cycles-exact :
    (d : Devices) (n k : ℕ)
    → halt_until_serial_m_cycles d ≡ some n
    → k ≤ n
    → pending_after k d ≡ (k == n)
halt_until_serial_m_cycles-exact d zero k h le =
    let found = skip_count d 0 h in
    let m = may_skip_lem d found.0 in absurd (omega (arith, found.1, m.positive_count, m.whole))
halt_until_serial_m_cycles-exact d (suc n) k h le =
    let found = skip_count d (suc n) h in
    let m = may_skip_lem d found.0 in
    let count : d.serial_cycles_remaining ≡ suc n * 4 = omega (arith, found.1, m.whole) in
    let place : (k ≡ suc n) ⊎ (k < suc n) = ground arith in
    elim place [
      | inl same ↦ rw same (pending_at d n m count ∙ sym (equal_to_itself (suc n)))
      | inr before ↦ silent_before d (suc n) k m count before ∙ sym (below_differs k (suc n) before)
    ]
