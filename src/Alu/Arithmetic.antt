-- ===== src/Alu/Arithmetic.antt =====
-- Sums, differences and their flags in crates/zksm83-core/src/alu.rs.
use zksm.Prelude.{
  ℕ, ◌+◌, ◌*◌, ◌%◌, ◌<◌, ◌≡◌, ◌↔◌, Bool, true, false, of_bool, arith, and_mask_4, and_mask_12, ltb,
}
use zksm.Flags.{Flags, zero_flag, subtract_flag, half_carry_flag, carry_flag}
use zksm.Flags.Laws.{flag_laws}
use zksm.Alu.{add, subtract, add_hl}

-- For bytes, the sum with carry is exact with the carry flag as ninth bit, the half carry is the
-- carry out of the low nibble, Z says whether the result is zero, and N is clear.
pub add_exact :
    (a b : ℕ) (c : Bool)
    → a < 256
    → b < 256
    → let r = add a b c in
      (r.value + of_bool (carry_flag r.flags) * 256 ≡ a + b + of_bool c)
      × (half_carry_flag r.flags ≡ ltb 15 (a % 16 + b % 16 + of_bool c))
      × ((zero_flag r.flags ≡ true) ↔ (r.value ≡ 0))
      × (subtract_flag r.flags ≡ false)
unfolding add
add_exact a b c ha hb = simp (flag_laws, and_mask_4) (ground arith)

-- For bytes, the difference with borrow is exact with the carry flag as the borrow, the half carry
-- is the borrow of the low nibble, Z says whether the result is zero, and N is set.
pub subtract_exact :
    (a b : ℕ) (c : Bool)
    → a < 256
    → b < 256
    → let r = subtract a b c in
      (r.value + b + of_bool c ≡ a + of_bool (carry_flag r.flags) * 256)
      × (half_carry_flag r.flags ≡ ltb (a % 16) (b % 16 + of_bool c))
      × ((zero_flag r.flags ≡ true) ↔ (r.value ≡ 0))
      × (subtract_flag r.flags ≡ true)
unfolding subtract
subtract_exact a b c ha hb = simp (flag_laws, and_mask_4) (ground arith)

-- For 16-bit words, the sum is exact with the carry flag as seventeenth bit, the half carry is the
-- carry out of the low twelve bits, Z is kept, and N is clear.
pub add_hl_exact :
    (a b : ℕ) (f : Flags)
    → a < 65536
    → b < 65536
    → let r = add_hl a b f in
      (r.value + of_bool (carry_flag r.flags) * 65536 ≡ a + b)
      × (half_carry_flag r.flags ≡ ltb 4095 (a % 4096 + b % 4096))
      × (zero_flag r.flags ≡ zero_flag f)
      × (subtract_flag r.flags ≡ false)
unfolding add_hl
add_hl_exact a b f ha hb = simp (flag_laws, and_mask_12) (ground arith)
