-- ===== src/Timer.antt =====
-- The divider and the programmable timer (crates/zksm83-core/src/dmg/timer.rs).
pub mod Shape
pub mod Interrupt
use zksm.Prelude.{
  ℕ, zero, suc, ◌+◌, ◌-◌, ◌*◌, ◌/◌, ◌%◌, Bool, true, false, not, ◌&&◌, ◌||◌, Option, none, some,
  ltb, leb, ◌==◌, within, if◌then◌else◌, bit_and, bit_or, has_bits, u16_add,
}

-- `reload_phase` is zero when idle; 1 to 5 encode the overflow ticks 0 to 4.
pub record Timer : Type 0 where
  pub raw_div : ℕ
  pub counter : ℕ
  pub modulo : ℕ
  pub control : ℕ
  pub edge_latch : Bool
  pub reload_phase : ℕ

abbrev pub empty : Timer
empty = record {
  raw_div = 0;
  counter = 0;
  modulo = 0;
  control = 0;
  edge_latch = false;
  reload_phase = 0;
}

abbrev pub dmg_post_boot : Timer
dmg_post_boot = record empty { raw_div = 0xabcc }

abbrev pub timer_interrupt : ℕ
timer_interrupt = 0x04

unfoldable pub read : ℕ → Timer → Option ℕ
read address t =
    if address == 0xff04
    then some (t.raw_div / 256 % 256)
    else if address == 0xff05
    then (if t.reload_phase == 5 then some t.modulo else some t.counter)
    else if address == 0xff06
    then some t.modulo
    else if address == 0xff07
    then some (bit_or 0xf8 t.control)
    else none

unfoldable pub write_counter : ℕ → Timer → Timer
write_counter value t =
    if t.reload_phase == 5
    then record t { counter = t.modulo }
    else record t { counter = value; reload_phase = 0 }

unfoldable pub write_modulo : ℕ → Timer → Timer
write_modulo value t =
    if t.reload_phase == 5
    then record t { modulo = value; counter = value }
    else record t { modulo = value }

-- The state after `write`; the byte that `write` returns is `read` before it.
unfoldable pub written : ℕ → ℕ → Timer → Option Timer
unfolding write_counter write_modulo
written address value t =
    if address == 0xff04
    then some (record t { raw_div = 0 })
    else if address == 0xff05
    then some (write_counter value t)
    else if address == 0xff06
    then some (write_modulo value t)
    else if address == 0xff07
    then some (record t { control = bit_and value 0x07 })
    else none

abbrev with_before : Timer → Option ℕ → Option Timer → Option (ℕ × Timer)
with_before t none after = none
with_before t (some before) none = none
with_before t (some before) (some after) = some (before, after)

unfoldable pub write : ℕ → ℕ → Timer → Option (ℕ × Timer)
unfolding read written
write address value t = with_before t (read address t) (written address value t)

abbrev detector_mask : ℕ → ℕ
detector_mask select =
    if select == 0 then 0x200 else if select == 1 then 0x08 else if select == 2 then 0x20 else 0x80

unfoldable pub detector_input : Timer → Bool
detector_input t =
    has_bits t.control 0x04 && has_bits t.raw_div (detector_mask (bit_and t.control 0x03))

-- The interrupt bits raised and the timer after the reload pipeline moves.
unfoldable pub advance_reload_pipeline : Timer → ℕ × Timer
advance_reload_pipeline t =
    if t.reload_phase == 5
    then (timer_interrupt, record t { counter = t.modulo; reload_phase = 0 })
    else (0, if t.reload_phase == 0 then t else record t { reload_phase = t.reload_phase + 1 })

unfoldable pub increment_counter : Timer → Timer
increment_counter t =
    if t.counter == 255
    then record t { counter = 0; reload_phase = 1 }
    else record t { counter = t.counter + 1 }

unfoldable pub count_edge : Timer → Timer
unfolding detector_input increment_counter
count_edge t =
    let detector = detector_input t in
    let falling = t.edge_latch && not detector in
    let t' = record t { edge_latch = detector } in if falling then increment_counter t' else t'

unfoldable pub tick : Timer → ℕ × Timer
unfolding advance_reload_pipeline count_edge
tick t =
    let (requested, t') = advance_reload_pipeline t in
    (requested, count_edge (record t' { raw_div = u16_add t'.raw_div 1 }))

-- The loop of `advance_t_cycles`, with the interrupt bits gathered so far.
unfoldable pub advance_loop : ℕ → ℕ → Timer → ℕ × Timer
advance_loop zero requested t = (requested, t)
advance_loop (suc ticks) requested t =
    let (r, t') = tick t in advance_loop ticks (bit_or requested r) t'

unfoldable pub advance_t_cycles : ℕ → Timer → ℕ × Timer
unfolding advance_loop
advance_t_cycles ticks t = advance_loop ticks 0 t

abbrev same : Bool → Bool → Bool
same true q = q
same false q = not q

abbrev pub period_of : ℕ → ℕ
period_of select =
    if select == 0 then 1024 else if select == 1 then 16 else if select == 2 then 64 else 256

-- `checked_add` of two `u32`.
abbrev checked_add32 : ℕ → ℕ → Option ℕ
checked_add32 a b = if ltb (a + b) 0x100000000 then some (a + b) else none

abbrev add_five : Option ℕ → Option ℕ
add_five none = none
add_five (some n) = checked_add32 n 5

unfoldable pub t_cycles_until_interrupt : Timer → Option ℕ
unfolding detector_input
t_cycles_until_interrupt t =
    if not (has_bits t.control 0x04)
      || (not (t.reload_phase == 0) || not (same t.edge_latch (detector_input t)))
    then none
    else let period = period_of (bit_and t.control 0x03) in
      let remainder = bit_and t.raw_div (period - 1) in
      let first_falling_edge = period - remainder in
      let later_falling_edges = (255 - t.counter) * period in
      add_five (checked_add32 first_falling_edge later_falling_edges)
