-- ===== src/Timer/Shape.antt =====
-- The ranges of the registers of crates/zksm83-core/src/dmg/timer.rs.
use zksm.Prelude.{ℕ, zero, suc, ◌≤◌, ◌<◌, ◌≡◌, some, arith, bit_and-le}
use zksm.Timer.{Timer, tick, advance_loop, advance_t_cycles, write}

pub record IsValid (t : Timer) : Type 0 where
  pub raw_div_lt : t.raw_div < 65536
  pub counter_lt : t.counter < 256
  pub modulo_lt : t.modulo < 256
  pub control_lt : t.control < 8
  pub phase_le : t.reload_phase ≤ 5

tick-IsValid : (t : Timer) → IsValid t → IsValid (tick t).1
unfolding tick
tick-IsValid t v = ground arith

advance_loop-IsValid : (n r : ℕ) (t : Timer) → IsValid t → IsValid (advance_loop n r t).1
unfolding advance_loop
advance_loop-IsValid zero r t v = v
advance_loop-IsValid (suc n) r t v = advance_loop-IsValid n _ (tick t).1 (tick-IsValid t v)

-- Any number of T-cycles keeps the timer registers in range.
pub advance_t_cycles-IsValid : (n : ℕ) (t : Timer) → IsValid t → IsValid (advance_t_cycles n t).1
unfolding advance_t_cycles
advance_t_cycles-IsValid n t v = advance_loop-IsValid n 0 t v

pub write-IsValid :
    (address value before : ℕ) (t u : Timer)
    → IsValid t
    → value < 256
    → write address value t ≡ some (before, u)
    → IsValid u
unfolding write
write-IsValid address value before t u v h e = ground (arith, bit_and-le value 0x07)
