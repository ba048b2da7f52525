-- ===== src/Devices/Advance.antt =====
-- `advance_m_cycles` and `advance_quiet_long` of crates/zksm83-core/src/dmg.rs against single M-cycles.
use zksm.Prelude.{
  ℕ, zero, suc, ◌+◌, ◌*◌, ◌≤◌, ◌≡◌, refl, sym, ap, ◌∙◌, arith, bit_or, bit_or_assoc, bit_or_comm,
  bit_or-zero, zero-bit_or, iterate, min, bit_and, ◌-◌, ◌==◌, if◌then◌else◌, Bool,
}
use Prim.Native.Nat.add
use zksm.Timer
use zksm.Timer.{Timer}
use zksm.Devices.State.{Devices}
use zksm.Devices.Ppu.{
  advance_ppu_t_cycle, advance_dot, request_stat_rising_edge, stat_signal, lcd_enabled,
}
use zksm.Devices.Lines.{advance_serial_t_cycles}
use zksm.Devices.Clock.{advance_timer, advance_m_cycles, quiet_loop, advance_quiet_long}

or_swap : (r a b : ℕ) → bit_or (bit_or r a) b ≡ bit_or (bit_or r b) a
or_swap r a b =
    bit_or_assoc r a b ∙ (ap (λ (x : ℕ). bit_or r x) (bit_or_comm a b) ∙ sym (bit_or_assoc r b a))

-- What the timer and the serial port do to the devices: `q` is requested, and these fields change.
abbrev touched : ℕ → Timer → ℕ → ℕ → ℕ → Devices → Devices
touched q t data_byte control cycles d = record d {
  interrupt_request = bit_or d.interrupt_request q;
  timer = t;
  serial_data = data_byte;
  serial_control = control;
  serial_cycles_remaining = cycles;
}

module _ (q : ℕ) (t : Timer) (data_byte control cycles : ℕ) where
  abbrev touch : Devices → Devices
  touch = touched q t data_byte control cycles

  advance_dot-touch : (d : Devices) → advance_dot (touch d) ≡ touch (advance_dot d)
  unfolding advance_dot
  advance_dot-touch d = ground (arith, or_swap d.interrupt_request q 1)

  stat_signal-touch : (d : Devices) → stat_signal (touch d) ≡ stat_signal d
  unfolding stat_signal
  stat_signal-touch d = refl

  lcd_enabled-touch : (d : Devices) → lcd_enabled (touch d) ≡ lcd_enabled d
  unfolding lcd_enabled
  lcd_enabled-touch d = refl

  request-touch :
      (b : Bool) (d : Devices)
      → request_stat_rising_edge b (touch d) ≡ touch (request_stat_rising_edge b d)
  unfolding request_stat_rising_edge
  request-touch b d = ground (arith, stat_signal-touch d, or_swap d.interrupt_request q 2)

  ppu-touch : (d : Devices) → advance_ppu_t_cycle (touch d) ≡ touch (advance_ppu_t_cycle d)
  unfolding advance_ppu_t_cycle
  ppu-touch d = ground (
    arith,
    lcd_enabled-touch d,
    stat_signal-touch d,
    advance_dot-touch d,
    request-touch (stat_signal d) (advance_dot d),
  )

touched_self :
    (d : Devices) → touched 0 d.timer d.serial_data d.serial_control d.serial_cycles_remaining d ≡ d
touched_self d = rw (bit_or-zero d.interrupt_request)

-- A dot leaves the timer and the serial port alone.
ppu_fixed :
    (d : Devices)
    → advance_ppu_t_cycle d
      ≡ touched 0 d.timer d.serial_data d.serial_control d.serial_cycles_remaining
          (advance_ppu_t_cycle d)
ppu_fixed d =
    ap advance_ppu_t_cycle (sym (touched_self d))
    ∙ ppu-touch 0 d.timer d.serial_data d.serial_control d.serial_cycles_remaining d

timer-ppu :
    (n : ℕ) (d : Devices)
    → advance_timer n (advance_ppu_t_cycle d) ≡ advance_ppu_t_cycle (advance_timer n d)
unfolding advance_timer
timer-ppu n d =
    let p = advance_ppu_t_cycle d in
    let fixed = ppu_fixed d in
    let r = Timer.advance_t_cycles n d.timer in
    (λ i.
      touched (Timer.advance_t_cycles n (fixed i).timer).0
        (Timer.advance_t_cycles n (fixed i).timer).1 (fixed i).serial_data (fixed i).serial_control
        (fixed i).serial_cycles_remaining p)
    ∙ sym (ppu-touch r.0 r.1 d.serial_data d.serial_control d.serial_cycles_remaining d)

-- What the serial port requests, and its registers afterwards.
abbrev serial_request : ℕ → ℕ → ℕ
serial_request m cycles = if cycles == 0 then 0 else if cycles - m == 0 then 0x08 else 0

abbrev serial_register : ℕ → ℕ → ℕ → ℕ → ℕ
serial_register m cycles old new = if cycles == 0 then old else if cycles - m == 0 then new else old

abbrev serial_touched : ℕ → Devices → Devices → Devices
serial_touched m s d =
    touched (serial_request m s.serial_cycles_remaining) s.timer
      (serial_register m s.serial_cycles_remaining s.serial_data 0xff)
      (serial_register m s.serial_cycles_remaining s.serial_control (bit_and s.serial_control 0x7f))
      (s.serial_cycles_remaining - m) d

serial_as_touch : (m : ℕ) (d : Devices) → advance_serial_t_cycles m d ≡ serial_touched m d d
unfolding advance_serial_t_cycles
serial_as_touch m d = ground (arith, bit_or-zero d.interrupt_request)

serial-ppu :
    (m : ℕ) (d : Devices)
    → advance_serial_t_cycles m (advance_ppu_t_cycle d)
      ≡ advance_ppu_t_cycle (advance_serial_t_cycles m d)
serial-ppu m d =
    let p = advance_ppu_t_cycle d in
    serial_as_touch m p
    ∙ ((λ i. serial_touched m (ppu_fixed d i) p)
        ∙ (sym (ppu-touch _ _ _ _ _ d) ∙ ap advance_ppu_t_cycle (sym (serial_as_touch m d))))

timer-serial :
    (n m : ℕ) (d : Devices)
    → advance_timer n (advance_serial_t_cycles m d) ≡ advance_serial_t_cycles m (advance_timer n d)
unfolding advance_serial_t_cycles advance_timer
timer-serial n m d =
    ground (arith, or_swap d.interrupt_request (Timer.advance_t_cycles n d.timer).0 8)

serial-serial :
    (n m : ℕ) (d : Devices)
    → advance_serial_t_cycles m (advance_serial_t_cycles n d) ≡ advance_serial_t_cycles (n + m) d
unfolding advance_serial_t_cycles
serial-serial n m d = ground arith

advance_loop-requested :
    (n r : ℕ) (t : Timer)
    → Timer.advance_loop n r t
      ≡ (bit_or r (Timer.advance_loop n 0 t).0, (Timer.advance_loop n 0 t).1)
unfolding Timer.advance_loop
advance_loop-requested zero r t = rw (bit_or-zero r)
advance_loop-requested (suc n) r t =
    let q = (Timer.tick t).0 in
    let u = (Timer.tick t).1 in
    rw (
      advance_loop-requested n (bit_or r q) u,
      advance_loop-requested n (bit_or 0 q) u,
      zero-bit_or q,
      bit_or_assoc r q (Timer.advance_loop n 0 u).0,
    )

advance_loop-add :
    (n m r : ℕ) (t : Timer)
    → Timer.advance_loop (n + m) r t
      ≡ Timer.advance_loop m (Timer.advance_loop n r t).0 (Timer.advance_loop n r t).1
unfolding Timer.advance_loop
advance_loop-add zero m r t = rw add.zero
advance_loop-add (suc n) m r t = rw add.suc (advance_loop-add n m _ _)

timer-timer :
    (n m : ℕ) (d : Devices) → advance_timer m (advance_timer n d) ≡ advance_timer (n + m) d
unfolding advance_timer Timer.advance_t_cycles
timer-timer n m d =
    let (a, u) = Timer.advance_loop n 0 d.timer in
    rw (
      advance_loop-add n m 0 d.timer,
      advance_loop-requested m a u,
      bit_or_assoc d.interrupt_request a (Timer.advance_loop m 0 u).0,
    )

iterate-commute {ℓ} :
    {A : Type ℓ} (f g : A → A) (fg : (a : A) → g (f a) ≡ f (g a)) (n : ℕ) (a : A)
    → g (iterate n f a) ≡ iterate n f (g a)
unfolding iterate
iterate-commute f g fg zero a = refl
iterate-commute f g fg (suc n) a = iterate-commute f g fg n (f a) ∙ ap (iterate n f) (fg a)

iterate-add {ℓ} :
    {A : Type ℓ} (f : A → A) (n m : ℕ) (a : A) → iterate m f (iterate n f a) ≡ iterate (n + m) f a
unfolding iterate
iterate-add f zero m a = rw add.zero
iterate-add f (suc n) m a = rw add.suc (iterate-add f n m (f a))

ppu_dots : ℕ → Devices → Devices
ppu_dots n = iterate n advance_ppu_t_cycle

timer-dots :
    (n k : ℕ) (d : Devices) → advance_timer n (ppu_dots k d) ≡ ppu_dots k (advance_timer n d)
unfolding ppu_dots
timer-dots n = iterate-commute advance_ppu_t_cycle (advance_timer n) (timer-ppu n)

serial-dots :
    (n k : ℕ) (d : Devices)
    → advance_serial_t_cycles n (ppu_dots k d) ≡ ppu_dots k (advance_serial_t_cycles n d)
unfolding ppu_dots
serial-dots n = iterate-commute advance_ppu_t_cycle (advance_serial_t_cycles n) (serial-ppu n)

dots-dots : (n m : ℕ) (d : Devices) → ppu_dots m (ppu_dots n d) ≡ ppu_dots (n + m) d
unfolding ppu_dots
dots-dots n m d = iterate-add advance_ppu_t_cycle n m d

-- All devices, by T-cycles.
t_advance : ℕ → Devices → Devices
t_advance t d = ppu_dots t (advance_serial_t_cycles t (advance_timer t d))

t_advance-add : (n m : ℕ) (d : Devices) → t_advance m (t_advance n d) ≡ t_advance (n + m) d
unfolding t_advance
t_advance-add n m d = rw (
  timer-dots m n (advance_serial_t_cycles n (advance_timer n d)),
  serial-dots m n (advance_timer m (advance_serial_t_cycles n (advance_timer n d))),
  dots-dots n m
      (advance_serial_t_cycles m (advance_timer m (advance_serial_t_cycles n (advance_timer n d)))),
  timer-serial m n (advance_timer n d),
  serial-serial n m (advance_timer m (advance_timer n d)),
  timer-timer n m d,
)

t_advance_lem : (n : ℕ) (d : Devices) → n ≤ 63 → advance_m_cycles n d ≡ t_advance (n * 4) d
unfolding advance_m_cycles t_advance ppu_dots
t_advance_lem n d h = let e : min 255 (n * 4) ≡ n * 4 = omega arith in rw e

-- Up to 63 M-cycles, advancing all the devices by n and then by m is advancing them by n + m.
pub advance_m_cycles-add :
    (n m : ℕ) (d : Devices)
    → n + m ≤ 63
    → advance_m_cycles m (advance_m_cycles n d) ≡ advance_m_cycles (n + m) d
advance_m_cycles-add n m d h =
    rw
      (
        t_advance_lem n d (omega arith),
        t_advance_lem m _ (omega arith),
        t_advance_lem (n + m) d h,
        t_advance-add (n * 4) (m * 4) d,
      )
      (ap (λ (k : ℕ). t_advance k d) (omega arith))

advance_m_cycles-zero : (d : Devices) → advance_m_cycles 0 d ≡ d
unfolding advance_m_cycles advance_timer iterate Timer.advance_t_cycles
advance_m_cycles-zero d = ground (arith, bit_or-zero d.interrupt_request)

iterate-one :
    (n : ℕ) (d : Devices) → n ≤ 63 → iterate n (advance_m_cycles 1) d ≡ advance_m_cycles n d
unfolding iterate
iterate-one zero d h = sym (advance_m_cycles-zero d)
iterate-one (suc n) d h =
    iterate-one n (advance_m_cycles 1 d) (omega arith)
    ∙ (advance_m_cycles-add 1 n d (omega arith)
        ∙ ap (λ (k : ℕ). advance_m_cycles k d) (omega arith))

quiet_loop-suc :
    (fuel n : ℕ) (d : Devices)
    → quiet_loop (suc fuel) (suc n) d
      ≡ quiet_loop fuel (suc n - min (suc n) 63) (advance_m_cycles (min (suc n) 63) d)
unfolding quiet_loop
quiet_loop-suc fuel n d = ground arith

quiet_loop-iterate :
    (fuel n : ℕ) (d : Devices) → n ≤ fuel → quiet_loop fuel n d ≡ iterate n (advance_m_cycles 1) d
unfolding quiet_loop
quiet_loop-iterate zero n d h = let e : n ≡ 0 = omega arith in rw e (unfold iterate in refl)
quiet_loop-iterate (suc fuel) zero d h = unfold iterate in refl
quiet_loop-iterate (suc fuel) (suc n) d h =
    let c = min (suc n) 63 in
    let left = suc n - c in
    quiet_loop-suc fuel n d
    ∙ (quiet_loop-iterate fuel left (advance_m_cycles c d) (omega arith)
        ∙ (ap (iterate left (advance_m_cycles 1)) (sym (iterate-one c d (omega arith)))
            ∙ (iterate-add (advance_m_cycles 1) c left d
                ∙ ap (λ (k : ℕ). iterate k (advance_m_cycles 1) d) (omega arith))))

-- The long advance of a quiet HALT, in steps of at most 63 M-cycles, is that many single M-cycles
-- of all the devices.
pub advance_quiet_long-iterate :
    (n : ℕ) (d : Devices) → advance_quiet_long n d ≡ iterate n (advance_m_cycles 1) d
unfolding advance_quiet_long
advance_quiet_long-iterate n d = quiet_loop-iterate n n d (omega arith)
