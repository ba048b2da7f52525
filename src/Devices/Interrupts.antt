-- ===== src/Devices/Interrupts.antt =====
-- `pending_interrupt` and `acknowledge_interrupt` of crates/zksm83-core/src/dmg.rs, bit by bit.
use zksm.Prelude.{
  ℕ, ◌-◌, ◌*◌, ◌/◌, ◌%◌, ◌^◌, ◌<◌, ◌≤◌, ◌⊎◌, ◌≡◌, ◌≢◌, min, bit_and, bit_and_step, ◌==◌, Bool, true,
  refl, some, all_below, all_below_sound, arith, and_bit_0, and_bit_1, and_bit_2, and_bit_3,
  and_bit_4, ==_iff, complement,
}
use zksm.Devices.State.{
  Interrupt, bit, Devices, first_pending, pending_interrupt, acknowledge_interrupt,
}

-- The bit of an interrupt in a register.
unfoldable pub line : Interrupt → ℕ → ℕ
unfolding bit
line i r = r / 2 ^ bit i % 2

line_le : (i : Interrupt) (r : ℕ) → line i r ≤ 1
unfolding line
line_le i r = omega arith

digit_0 : (a b : ℕ) → bit_and a b % 2 ≡ min (a % 2) (b % 2)
digit_0 a b = omega (arith, bit_and_step a b)

half : (a b : ℕ) → bit_and a b / 2 ≡ bit_and (a / 2) (b / 2)
half a b = omega (arith, bit_and_step a b)

digit_1 : (a b : ℕ) → bit_and a b / 2 % 2 ≡ min (a / 2 % 2) (b / 2 % 2)
digit_1 a b = omega (arith, half a b, digit_0 (a / 2) (b / 2))

digit_2 : (a b : ℕ) → bit_and a b / 4 % 2 ≡ min (a / 4 % 2) (b / 4 % 2)
digit_2 a b = omega (arith, half a b, digit_1 (a / 2) (b / 2))

digit_3 : (a b : ℕ) → bit_and a b / 8 % 2 ≡ min (a / 8 % 2) (b / 8 % 2)
digit_3 a b = omega (arith, half a b, digit_2 (a / 2) (b / 2))

digit_4 : (a b : ℕ) → bit_and a b / 16 % 2 ≡ min (a / 16 % 2) (b / 16 % 2)
digit_4 a b = omega (arith, half a b, digit_3 (a / 2) (b / 2))

-- The first pending bit is set, and the bits below it are not.
first_pending-line :
    (m : ℕ) (i j : Interrupt)
    → first_pending m ≡ some i
    → (line i m ≡ 1) × ((bit i ≤ bit j) ⊎ (line j m ≡ 0))
unfolding first_pending line bit
first_pending-line m i j h =
    ground (arith, and_bit_0 m, and_bit_1 m, and_bit_2 m, and_bit_3 m, and_bit_4 m)

pub line-bit_and : (i : Interrupt) (r e : ℕ) → line i (bit_and r e) ≡ min (line i r) (line i e)
unfolding line
line-bit_and Interrupt.v_blank r e = omega (arith, digit_0 r e)
line-bit_and Interrupt.lcd_stat r e = digit_1 r e
line-bit_and Interrupt.timer r e = digit_2 r e
line-bit_and Interrupt.serial r e = digit_3 r e
line-bit_and Interrupt.joypad r e = digit_4 r e

-- The pending interrupt is requested and enabled, and no interrupt of lower bit is both.
pub pending_interrupt-first :
    (d : Devices) (i j : Interrupt)
    → pending_interrupt d ≡ some i
    → (line i d.interrupt_request ≡ 1)
      × (line i d.interrupt_enable ≡ 1)
      × ((bit i ≤ bit j) ⊎ (min (line j d.interrupt_request) (line j d.interrupt_enable) ≡ 0))
unfolding pending_interrupt
pending_interrupt-first d i j h =
    let both = bit_and d.interrupt_request d.interrupt_enable in
    ground (
      arith,
      first_pending-line both i j h,
      line-bit_and i d.interrupt_request d.interrupt_enable,
      line-bit_and j d.interrupt_request d.interrupt_enable,
      line_le i d.interrupt_request,
      line_le i d.interrupt_enable,
    )

-- The test that acknowledging leaves the other bits of `r`, and clears the bit of `i`.
abbrev cleared : Interrupt → ℕ → Bool
unfolding bit
cleared i r = bit_and r (complement (2 ^ bit i)) == r - r / 2 ^ bit i % 2 * 2 ^ bit i

cleared_table : (i : Interrupt) → all_below 256 (cleared i) ≡ true
unfolding cleared all_below
cleared_table Interrupt.v_blank = refl
cleared_table Interrupt.lcd_stat = refl
cleared_table Interrupt.timer = refl
cleared_table Interrupt.serial = refl
cleared_table Interrupt.joypad = refl

clear_bits :
    (i j : Interrupt) (r : ℕ)
    → bit j ≢ bit i
    → bit_and r (complement (2 ^ bit i)) ≡ r - r / 2 ^ bit i % 2 * 2 ^ bit i
    → (line i (bit_and r (complement (2 ^ bit i))) ≡ 0)
      × (line j (bit_and r (complement (2 ^ bit i))) ≡ line j r)
unfolding line bit
clear_bits i j r other h = ground arith

-- With a request register of one byte, acknowledging an interrupt clears its request and keeps the
-- request of every other interrupt.
pub acknowledge_interrupt-line :
    (d : Devices) (i j : Interrupt)
    → d.interrupt_request < 256
    → bit j ≢ bit i
    → (line i (acknowledge_interrupt i d).interrupt_request ≡ 0)
      × (line j (acknowledge_interrupt i d).interrupt_request ≡ line j d.interrupt_request)
unfolding acknowledge_interrupt cleared
acknowledge_interrupt-line d i j h other =
    let r = d.interrupt_request in
    ground (
      arith,
      clear_bits i j r other
          ((==_iff _ _).0 (all_below_sound 256 (cleared i) r (cleared_table i) h)),
    )
