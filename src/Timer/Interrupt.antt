-- ===== src/Timer/Interrupt.antt =====
-- `t_cycles_until_interrupt` of crates/zksm83-core/src/dmg/timer.rs against the ticks.
use zksm.Prelude.{
  ℕ, zero, suc, ◌+◌, ◌-◌, ◌*◌, ◌/◌, ◌%◌, ◌≤◌, ◌<◌, ◌≡◌, ◌⊎◌, inl, inr, ◌≢◌, some, arith, leb, ◌==◌,
  if◌then◌else◌, and_bit_2, and_bit_3, and_bit_5, and_bit_7, and_bit_9, and_mask_2, and_mask_4,
  and_mask_6, and_mask_8, and_mask_10, u16_add, iterate, zero-bit_or, ap, ◌∙◌,
}
use mathlib.Core.Path.{fun_ext}
use native.Mathlib.Decide.{ℕ_discrete}
use zksm.Timer.{Timer, tick, advance_t_cycles, timer_interrupt, t_cycles_until_interrupt}
use zksm.Timer.Shape.{IsValid}

-- A timer of TAC `k` and period `p` whose detector has settled, and whose reload pipeline, if it
-- moves, started at the last falling edge.
record IsWaiting (k p : ℕ) (t : Timer) : Type 0 where
  control : t.control ≡ k
  latch : t.edge_latch ≡ leb (p / 2) (t.raw_div % p)
  counter_lt : t.counter < 256
  phase_le : t.reload_phase ≤ 5
  aligned : (t.reload_phase ≡ 0) ⊎ (t.raw_div % p + 1 ≡ t.reload_phase)

-- The ticks left, the last of which raises the interrupt.
abbrev ticks_left : ℕ → Timer → ℕ
ticks_left p t =
    if t.reload_phase == 0
    then p - t.raw_div % p + (255 - t.counter) * p + 5
    else 6 - t.reload_phase

record IsQuietTick (k p : ℕ) (t : Timer) : Type 0 where
  silent : (tick t).0 ≡ 0
  waiting : IsWaiting k p (tick t).1
  closer : ticks_left p t ≡ suc (ticks_left p (tick t).1)

quiet_4 : (t : Timer) → IsWaiting 4 1024 t → t.reload_phase ≢ 5 → IsQuietTick 4 1024 t
unfolding tick
quiet_4 t w h =
    ground (arith, and_bit_2 t.control, and_mask_2 t.control, and_bit_9 (u16_add t.raw_div 1))

quiet_5 : (t : Timer) → IsWaiting 5 16 t → t.reload_phase ≢ 5 → IsQuietTick 5 16 t
unfolding tick
quiet_5 t w h =
    ground (arith, and_bit_2 t.control, and_mask_2 t.control, and_bit_3 (u16_add t.raw_div 1))

quiet_6 : (t : Timer) → IsWaiting 6 64 t → t.reload_phase ≢ 5 → IsQuietTick 6 64 t
unfolding tick
quiet_6 t w h =
    ground (arith, and_bit_2 t.control, and_mask_2 t.control, and_bit_5 (u16_add t.raw_div 1))

quiet_7 : (t : Timer) → IsWaiting 7 256 t → t.reload_phase ≢ 5 → IsQuietTick 7 256 t
unfolding tick
quiet_7 t w h =
    ground (arith, and_bit_2 t.control, and_mask_2 t.control, and_bit_7 (u16_add t.raw_div 1))

reload : (t : Timer) → t.reload_phase ≡ 5 → (tick t).0 ≡ timer_interrupt
unfolding tick
reload t h = ground arith

-- One T-cycle: the bits that it raises, and the timer after it.
tick_one : (t : Timer) → advance_t_cycles 1 t ≡ tick t
unfolding advance_t_cycles
tick_one t = ap (λ (r : ℕ). (r, (tick t).1)) (zero-bit_or (tick t).0)

-- The timer after `n` single T-cycles, and what the next one raises.
abbrev pub after : ℕ → Timer → Timer
after n t = iterate n (λ u. (advance_t_cycles 1 u).1) t

abbrev pub raised_next : ℕ → Timer → ℕ
raised_next n t = (advance_t_cycles 1 (after n t)).0

ticked : ℕ → Timer → ℕ × Timer
ticked n t = tick (iterate n (λ u. (tick u).1) t)

raised_next-ticked : (n : ℕ) (t : Timer) → raised_next n t ≡ (ticked n t).0
unfolding ticked
raised_next-ticked n t =
    ap (λ (f : Timer → ℕ × Timer). (f (iterate n (λ u. (f u).1) t)).0) (fun_ext tick_one)

module _ (k p : ℕ)
    (quiet : (t : Timer) → IsWaiting k p t → t.reload_phase ≢ 5 → IsQuietTick k p t) where
  counted_ticks :
      (n : ℕ) (t : Timer)
      → IsWaiting k p t
      → n < ticks_left p t
      → (ticked n t).0 ≡ (if suc n == ticks_left p t then timer_interrupt else 0)
  unfolding iterate ticked
  counted_ticks zero t w h = elim (ℕ_discrete t.reload_phase 5) [
    | yes e ↦ ground (arith, reload t e)
    | no e ↦ ground (arith, quiet t w e, (quiet t w e).waiting)
  ]
  counted_ticks (suc n) t w h = elim (ℕ_discrete t.reload_phase 5) [
    | yes e ↦ absurd (ground arith)
    | no e ↦
        let q = quiet t w e in
        let rest = counted_ticks n (tick t).1 q.waiting (omega (arith, q.closer)) in
        rw q.closer (rest ∙ ground arith)
  ]

  counted :
      (n : ℕ) (t : Timer)
      → IsWaiting k p t
      → n < ticks_left p t
      → raised_next n t ≡ (if suc n == ticks_left p t then timer_interrupt else 0)
  counted n t w h = raised_next-ticked n t ∙ counted_ticks n t w h

abbrev StartsWaiting : ℕ → ℕ → Timer → ℕ → Type 0
StartsWaiting k p t n = IsWaiting k p t × (n ≡ ticks_left p t)

starts_4 :
    (t : Timer) (n : ℕ)
    → IsValid t
    → t.control ≡ 4
    → t_cycles_until_interrupt t ≡ some n
    → StartsWaiting 4 1024 t n
unfolding t_cycles_until_interrupt
starts_4 t n v c e =
    ground
      (arith, and_bit_2 t.control, and_mask_2 t.control, and_bit_9 t.raw_div, and_mask_10 t.raw_div)

starts_5 :
    (t : Timer) (n : ℕ)
    → IsValid t
    → t.control ≡ 5
    → t_cycles_until_interrupt t ≡ some n
    → StartsWaiting 5 16 t n
unfolding t_cycles_until_interrupt
starts_5 t n v c e =
    ground
      (arith, and_bit_2 t.control, and_mask_2 t.control, and_bit_3 t.raw_div, and_mask_4 t.raw_div)

starts_6 :
    (t : Timer) (n : ℕ)
    → IsValid t
    → t.control ≡ 6
    → t_cycles_until_interrupt t ≡ some n
    → StartsWaiting 6 64 t n
unfolding t_cycles_until_interrupt
starts_6 t n v c e =
    ground
      (arith, and_bit_2 t.control, and_mask_2 t.control, and_bit_5 t.raw_div, and_mask_6 t.raw_div)

starts_7 :
    (t : Timer) (n : ℕ)
    → IsValid t
    → t.control ≡ 7
    → t_cycles_until_interrupt t ≡ some n
    → StartsWaiting 7 256 t n
unfolding t_cycles_until_interrupt
starts_7 t n v c e =
    ground
      (arith, and_bit_2 t.control, and_mask_2 t.control, and_bit_7 t.raw_div, and_mask_8 t.raw_div)

enabled :
    (t : Timer) (n : ℕ)
    → IsValid t
    → t_cycles_until_interrupt t ≡ some n
    → (t.control ≡ 4) ⊎ (t.control ≡ 5) ⊎ (t.control ≡ 6) ⊎ (t.control ≡ 7)
unfolding t_cycles_until_interrupt
enabled t n v e = ground (arith, and_bit_2 t.control)

-- When t_cycles_until_interrupt answers n for a timer in range, the first n - 1 single T-cycles
-- raise nothing and the n-th raises the timer interrupt.
pub t_cycles_until_interrupt_exact :
    (t : Timer) (n k : ℕ)
    → IsValid t
    → t_cycles_until_interrupt t ≡ some n
    → k < n
    → raised_next k t ≡ (if suc k == n then timer_interrupt else 0)
t_cycles_until_interrupt_exact t n k v e h = elim (enabled t n v e) [
  | inl c ↦ let (w, m) = starts_4 t n v c e in rw m (counted 4 1024 quiet_4 k t w (omega arith))
  | inr (inl c) ↦ let (w, m) = starts_5 t n v c e in rw m (counted 5 16 quiet_5 k t w (omega arith))
  | inr (inr (inl c)) ↦
      let (w, m) = starts_6 t n v c e in rw m (counted 6 64 quiet_6 k t w (omega arith))
  | inr (inr (inr c)) ↦
      let (w, m) = starts_7 t n v c e in rw m (counted 7 256 quiet_7 k t w (omega arith))
]
