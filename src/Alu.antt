-- ===== src/Alu.antt =====
-- Eight- and sixteen-bit arithmetic with its flags (crates/zksm83-core/src/alu.rs).
pub mod Arithmetic
pub mod Decimal
pub mod Rotate
use zksm.Prelude.{
  ℕ, ◌+◌, ◌-◌, ◌*◌, ◌/◌, ◌%◌, Bool, true, false, ◌&&◌, ◌||◌, Option, none, some, ltb, leb, ◌==◌,
  if◌then◌else◌, bit_and, bit_or, bit_xor, u8_add, u8_sub, u16_add, u16_add_signed, has_bits,
  of_bool,
}
use zksm.Isa.Types.{AluOperation, CbOperation}
use zksm.Flags.{Flags, from_bits, zero_flag, subtract_flag, half_carry_flag, carry_flag}

pub record ByteResult : Type 0 where
  pub value : ℕ
  pub flags : Flags

pub record WordResult : Type 0 where
  pub value : ℕ
  pub flags : Flags

unfoldable pub increment : ℕ → Flags → ByteResult
increment value before =
    let result = u8_add value 1 in
    record {
      value = result;
      flags = from_bits (result == 0) false (bit_and value 0x0f == 0x0f) (carry_flag before);
    }

unfoldable pub decrement : ℕ → Flags → ByteResult
decrement value before =
    let result = u8_sub value 1 in
    record {
      value = result;
      flags = from_bits (result == 0) true (bit_and value 0x0f == 0) (carry_flag before);
    }

-- A 16-bit sum overflows when the true sum leaves the range.
unfoldable pub add_hl : ℕ → ℕ → Flags → WordResult
add_hl left right before =
    let half_carry = ltb 0x0fff (bit_and left 0x0fff + bit_and right 0x0fff) in
    let carry = leb 65536 (left + right) in
    record {
      value = u16_add left right;
      flags = from_bits (zero_flag before) false half_carry carry;
    }

unfoldable pub add_signed_to_sp : ℕ → ℕ → WordResult
add_signed_to_sp sp offset =
    let half_carry = ltb 0x000f (bit_and sp 0x000f + bit_and offset 0x000f) in
    let carry = ltb 0x00ff (bit_and sp 0x00ff + offset) in
    record { value = u16_add_signed sp offset; flags = from_bits false false half_carry carry }

-- `overflowing_add` and `overflowing_sub` twice: the flag is set if either one wraps.
unfoldable pub add : ℕ → ℕ → Bool → ByteResult
add left right carry_in =
    let carry_byte = of_bool carry_in in
    let partial = u8_add left right in
    let first_carry = leb 256 (left + right) in
    let value = u8_add partial carry_byte in
    let second_carry = leb 256 (partial + carry_byte) in
    let half_carry = ltb 0x0f (bit_and left 0x0f + bit_and right 0x0f + carry_byte) in
    record {
      value = value;
      flags = from_bits (value == 0) false half_carry (first_carry || second_carry);
    }

unfoldable pub subtract : ℕ → ℕ → Bool → ByteResult
subtract left right carry_in =
    let carry_byte = of_bool carry_in in
    let partial = u8_sub left right in
    let first_borrow = ltb left right in
    let value = u8_sub partial carry_byte in
    let second_borrow = ltb partial carry_byte in
    let half_borrow = ltb (bit_and left 0x0f) (bit_and right 0x0f + carry_byte) in
    record {
      value = value;
      flags = from_bits (value == 0) true half_borrow (first_borrow || second_borrow);
    }

unfoldable pub logical : ℕ → Bool → ByteResult
logical value half_carry = record {
  value = value;
  flags = from_bits (value == 0) false half_carry false;
}

unfoldable pub apply_alu : AluOperation → ℕ → ℕ → Flags → ByteResult
apply_alu AluOperation.add accumulator operand before = add accumulator operand false
apply_alu AluOperation.add_carry accumulator operand before =
    add accumulator operand (carry_flag before)
apply_alu AluOperation.subtract accumulator operand before = subtract accumulator operand false
apply_alu AluOperation.subtract_carry accumulator operand before =
    subtract accumulator operand (carry_flag before)
apply_alu AluOperation.and accumulator operand before = logical (bit_and accumulator operand) true
apply_alu AluOperation.xor accumulator operand before = logical (bit_xor accumulator operand) false
apply_alu AluOperation.or accumulator operand before = logical (bit_or accumulator operand) false
apply_alu AluOperation.compare accumulator operand before = subtract accumulator operand false

-- The result and the carry of `rotate_shift`; `none` for the single-bit operations. The value is
-- a byte: `<<` drops the bits above it, and `rotate_left` brings them in below.
unfoldable pub shifted : CbOperation → ℕ → Bool → Option (ℕ × Bool)
shifted CbOperation.rotate_left_circular value carry_in =
    some (bit_or (value * 2 % 256) (value / 128), has_bits value 0x80)
shifted CbOperation.rotate_right_circular value carry_in =
    some (bit_or (value / 2) (value * 128 % 256), has_bits value 0x01)
shifted CbOperation.rotate_left value carry_in =
    some (bit_or (value * 2 % 256) (of_bool carry_in), has_bits value 0x80)
shifted CbOperation.rotate_right value carry_in =
    some (bit_or (value / 2) (of_bool carry_in * 128), has_bits value 0x01)
shifted CbOperation.shift_left_arithmetic value carry_in =
    some (value * 2 % 256, has_bits value 0x80)
shifted CbOperation.shift_right_arithmetic value carry_in =
    some (bit_or (value / 2) (bit_and value 0x80), has_bits value 1)
shifted CbOperation.swap_nibbles value carry_in =
    some (bit_or (value * 16 % 256) (value / 16), false)
shifted CbOperation.shift_right_logical value carry_in = some (value / 2, has_bits value 1)
shifted (CbOperation.test_bit _) value carry_in = none
shifted (CbOperation.reset_bit _) value carry_in = none
shifted (CbOperation.set_bit _) value carry_in = none

abbrev rotated_result : Bool → Option (ℕ × Bool) → Option ByteResult
rotated_result zero_from_result none = none
rotated_result zero_from_result (some (result, carry)) = some (record {
  value = result;
  flags = from_bits (zero_from_result && (result == 0)) false false carry;
})

unfoldable pub rotate_shift : CbOperation → ℕ → Bool → Bool → Option ByteResult
unfolding shifted
rotate_shift operation value carry_in zero_from_result =
    rotated_result zero_from_result (shifted operation value carry_in)

abbrev decimal_carry : ℕ → Flags → Bool
decimal_carry accumulator before =
    if subtract_flag before then carry_flag before else (carry_flag before || ltb 0x99 accumulator)

abbrev decimal_correction : ℕ → Flags → ℕ
decimal_correction accumulator before =
    if subtract_flag before
    then bit_or (if carry_flag before then 0x60 else 0) (if half_carry_flag before then 0x06 else 0)
    else bit_or (if decimal_carry accumulator before then 0x60 else 0)
        (if half_carry_flag before || ltb 0x09 (bit_and accumulator 0x0f) then 0x06 else 0)

unfoldable pub decimal_adjust : ℕ → Flags → ByteResult
decimal_adjust accumulator before =
    let carry = decimal_carry accumulator before in
    let correction = decimal_correction accumulator before in
    let value =
      if subtract_flag before
      then u8_sub accumulator correction
      else u8_add accumulator correction in
    record { value = value; flags = from_bits (value == 0) (subtract_flag before) false carry }
