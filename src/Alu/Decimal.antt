-- ===== src/Alu/Decimal.antt =====
-- `decimal_adjust` of crates/zksm83-core/src/alu.rs on packed decimals.
use zksm.Prelude.{
  ℕ, ◌+◌, ◌-◌, ◌*◌, ◌/◌, ◌%◌, ◌<◌, ◌≡◌, Bool, true, false, of_bool, arith, and_mask_4, ltb, leb,
}
use zksm.Flags.{carry_flag}
use zksm.Flags.Laws.{subtract_flag-from_bits, half_carry_flag-from_bits, carry_flag-from_bits}
use zksm.Alu.{add, subtract, decimal_adjust}

-- The packed form of a number below 100: the tens in the high nibble, the units in the low one.
abbrev pub bcd : ℕ → ℕ
bcd x = x / 10 * 16 + x % 10

-- Adding two packed decimals with a carry and adjusting gives the packed sum modulo 100 and its
-- carry.
pub decimal_adjust-add :
    (x y : ℕ) (c : Bool)
    → x < 100
    → y < 100
    → let s = add (bcd x) (bcd y) c in
      let r = decimal_adjust s.value s.flags in
      (r.value ≡ bcd ((x + y + of_bool c) % 100))
      × (carry_flag r.flags ≡ leb 100 (x + y + of_bool c))
unfolding add decimal_adjust
decimal_adjust-add x y true hx hy =
    simp (subtract_flag-from_bits, half_carry_flag-from_bits, carry_flag-from_bits, and_mask_4)
      (ground arith)
decimal_adjust-add x y false hx hy =
    simp (subtract_flag-from_bits, half_carry_flag-from_bits, carry_flag-from_bits, and_mask_4)
      (ground arith)

-- Subtracting two packed decimals with a borrow and adjusting gives the packed difference modulo
-- 100 and its borrow.
pub decimal_adjust-subtract :
    (x y : ℕ) (c : Bool)
    → x < 100
    → y < 100
    → let s = subtract (bcd x) (bcd y) c in
      let r = decimal_adjust s.value s.flags in
      (r.value ≡ bcd ((x + 100 - (y + of_bool c)) % 100))
      × (carry_flag r.flags ≡ ltb x (y + of_bool c))
unfolding subtract decimal_adjust
decimal_adjust-subtract x y true hx hy =
    simp (subtract_flag-from_bits, half_carry_flag-from_bits, carry_flag-from_bits, and_mask_4)
      (ground arith)
decimal_adjust-subtract x y false hx hy =
    simp (subtract_flag-from_bits, half_carry_flag-from_bits, carry_flag-from_bits, and_mask_4)
      (ground arith)
