-- ===== src/Prelude/Bits.antt =====
-- The laws of `bit_and` and `bit_or` at variables, from their digit recursion.
use Prim.Native.Nat.{ℕ, zero, suc, ◌+◌, ◌-◌, ◌*◌, ◌/◌, ◌%◌, ◌^◌, ◌≤◌, ◌<◌, min, max}
use Prim.Native.Nat.{
  bit_and, bit_or, bit_xor, differ, digits, bitwise, bit_and-bitwise, bit_or-bitwise,
  bit_xor-bitwise,
}
use mathlib.Core.Path.{◌≡◌, refl, sym, ap, ◌∙◌}
use mathlib.Core.Logic.{◌⊎◌, inl, inr}
use native.Mathlib.Omega.{arith}
use native.Mathlib.Nat.{le_refl, pow-suc}

module _ (z : ℕ → ℕ) (f : ℕ → ℕ → ℕ) where
  -- One more unit of fuel changes nothing once there is enough.
  digits_grow : (fuel x y : ℕ) → x ≤ fuel → digits z f (suc fuel) x y ≡ digits z f fuel x y
  digits_grow zero zero y enough = refl
  digits_grow (suc fuel) zero y enough = refl
  digits_grow zero (suc x) y enough = absurd (omega arith)
  digits_grow (suc fuel) (suc x) y enough =
      omega (arith, digits_grow fuel (suc x / 2) (y / 2) (omega arith))

  digits_settled : (fuel x y : ℕ) → x ≤ fuel → digits z f fuel x y ≡ digits z f x x y
  digits_settled zero zero y enough = refl
  digits_settled zero (suc x) y enough = absurd (omega arith)
  digits_settled (suc fuel) x y enough =
      let exact : (x ≡ suc fuel) ⊎ (x ≤ fuel) = ground arith in
      elim exact [
        | inl same ↦ ap (λ n. digits z f n x y) (sym same)
        | inr below ↦ digits_grow fuel x y below ∙ digits_settled fuel x y below
      ]

  -- The lowest digit of a positive number, and the rest.
  bitwise_unfolded :
      (x y : ℕ)
      → bitwise z f (suc x) y ≡ bitwise z f (suc x / 2) (y / 2) * 2 + f (suc x % 2) (y % 2)
  bitwise_unfolded x y = omega (arith, digits_settled x (suc x / 2) (y / 2) (omega arith))

pub bit_and_step : (a b : ℕ) → bit_and a b ≡ bit_and (a / 2) (b / 2) * 2 + min (a % 2) (b % 2)
bit_and_step zero y = omega (arith, bit_and-bitwise 0 y, bit_and-bitwise 0 (y / 2))
bit_and_step (suc x) y =
    rw (bit_and-bitwise (suc x) y, bit_and-bitwise (suc x / 2) (y / 2))
      (bitwise_unfolded (λ d. 0) min x y)

pub bit_or_step : (a b : ℕ) → bit_or a b ≡ bit_or (a / 2) (b / 2) * 2 + max (a % 2) (b % 2)
bit_or_step zero y = omega (arith, bit_or-bitwise 0 y, bit_or-bitwise 0 (y / 2))
bit_or_step (suc x) y =
    rw (bit_or-bitwise (suc x) y, bit_or-bitwise (suc x / 2) (y / 2))
      (bitwise_unfolded (λ d. d) max x y)

bit_and-zero_below : (bound x : ℕ) → x < bound → bit_and x 0 ≡ 0
bit_and-zero_below zero x below = absurd (omega arith)
bit_and-zero_below (suc bound) zero below = refl
bit_and-zero_below (suc bound) (suc x) below =
    omega (arith, bit_and_step (suc x) 0, bit_and-zero_below bound (suc x / 2) (omega arith))

pub bit_and-zero : (x : ℕ) → bit_and x 0 ≡ 0
bit_and-zero x = bit_and-zero_below (suc x) x (omega arith)

-- One bit: the digit at its place, in the form that `omega` reads.
pub and_bit_0 : (a : ℕ) → bit_and a 0x01 ≡ a % 2
and_bit_0 a = omega (arith, bit_and_step a 0x01, bit_and-zero (a / 2))

pub and_bit_1 : (a : ℕ) → bit_and a 0x2 ≡ a / 2 % 2 * 2
and_bit_1 a = omega (arith, bit_and_step a 0x2, and_bit_0 (a / 2))

pub and_bit_2 : (a : ℕ) → bit_and a 0x4 ≡ a / 4 % 2 * 4
and_bit_2 a = omega (arith, bit_and_step a 0x4, and_bit_1 (a / 2))

pub and_bit_3 : (a : ℕ) → bit_and a 0x8 ≡ a / 8 % 2 * 8
and_bit_3 a = omega (arith, bit_and_step a 0x8, and_bit_2 (a / 2))

pub and_bit_4 : (a : ℕ) → bit_and a 0x10 ≡ a / 16 % 2 * 16
and_bit_4 a = omega (arith, bit_and_step a 0x10, and_bit_3 (a / 2))

pub and_bit_5 : (a : ℕ) → bit_and a 0x20 ≡ a / 32 % 2 * 32
and_bit_5 a = omega (arith, bit_and_step a 0x20, and_bit_4 (a / 2))

pub and_bit_6 : (a : ℕ) → bit_and a 0x40 ≡ a / 64 % 2 * 64
and_bit_6 a = omega (arith, bit_and_step a 0x40, and_bit_5 (a / 2))

pub and_bit_7 : (a : ℕ) → bit_and a 0x80 ≡ a / 128 % 2 * 128
and_bit_7 a = omega (arith, bit_and_step a 0x80, and_bit_6 (a / 2))

pub and_bit_8 : (a : ℕ) → bit_and a 0x100 ≡ a / 256 % 2 * 256
and_bit_8 a = omega (arith, bit_and_step a 0x100, and_bit_7 (a / 2))

pub and_bit_9 : (a : ℕ) → bit_and a 0x200 ≡ a / 512 % 2 * 512
and_bit_9 a = omega (arith, bit_and_step a 0x200, and_bit_8 (a / 2))

-- A mask of ones: the remainder.
pub and_mask_1 : (a : ℕ) → bit_and a 0x01 ≡ a % 2
and_mask_1 a = and_bit_0 a

pub and_mask_2 : (a : ℕ) → bit_and a 0x3 ≡ a % 4
and_mask_2 a = omega (arith, bit_and_step a 0x3, and_mask_1 (a / 2))

pub and_mask_3 : (a : ℕ) → bit_and a 0x7 ≡ a % 8
and_mask_3 a = omega (arith, bit_and_step a 0x7, and_mask_2 (a / 2))

pub and_mask_4 : (a : ℕ) → bit_and a 0xf ≡ a % 16
and_mask_4 a = omega (arith, bit_and_step a 0xf, and_mask_3 (a / 2))

pub and_mask_5 : (a : ℕ) → bit_and a 0x1f ≡ a % 32
and_mask_5 a = omega (arith, bit_and_step a 0x1f, and_mask_4 (a / 2))

pub and_mask_6 : (a : ℕ) → bit_and a 0x3f ≡ a % 64
and_mask_6 a = omega (arith, bit_and_step a 0x3f, and_mask_5 (a / 2))

pub and_mask_7 : (a : ℕ) → bit_and a 0x7f ≡ a % 128
and_mask_7 a = omega (arith, bit_and_step a 0x7f, and_mask_6 (a / 2))

pub and_mask_8 : (a : ℕ) → bit_and a 0xff ≡ a % 256
and_mask_8 a = omega (arith, bit_and_step a 0xff, and_mask_7 (a / 2))

pub and_mask_9 : (a : ℕ) → bit_and a 0x1ff ≡ a % 512
and_mask_9 a = omega (arith, bit_and_step a 0x1ff, and_mask_8 (a / 2))

pub and_mask_10 : (a : ℕ) → bit_and a 0x3ff ≡ a % 1024
and_mask_10 a = omega (arith, bit_and_step a 0x3ff, and_mask_9 (a / 2))

pub and_mask_11 : (a : ℕ) → bit_and a 0x7ff ≡ a % 2048
and_mask_11 a = omega (arith, bit_and_step a 0x7ff, and_mask_10 (a / 2))

pub and_mask_12 : (a : ℕ) → bit_and a 0xfff ≡ a % 4096
and_mask_12 a = omega (arith, bit_and_step a 0xfff, and_mask_11 (a / 2))

bit_or-half : (a b : ℕ) → bit_or a b / 2 ≡ bit_or (a / 2) (b / 2)
bit_or-half a b = omega (arith, bit_or_step a b)

bit_or-parity : (a b : ℕ) → bit_or a b % 2 ≡ max (a % 2) (b % 2)
bit_or-parity a b = omega (arith, bit_or_step a b)

bit_and-half : (a b : ℕ) → bit_and a b / 2 ≡ bit_and (a / 2) (b / 2)
bit_and-half a b = omega (arith, bit_and_step a b)

bit_and-parity : (a b : ℕ) → bit_and a b % 2 ≡ min (a % 2) (b % 2)
bit_and-parity a b = omega (arith, bit_and_step a b)

-- Two numbers with one parity and one half are equal; the induction is on a common bound.
bit_or_comm_fuel : (n a b : ℕ) → a ≤ n → b ≤ n → bit_or a b ≡ bit_or b a
bit_or_comm_fuel zero zero zero p q = refl
bit_or_comm_fuel zero zero (suc b) p q = absurd (omega arith)
bit_or_comm_fuel zero (suc a) b p q = absurd (omega arith)
bit_or_comm_fuel (suc n) a b p q = omega (
  arith,
  bit_or_step a b,
  bit_or_step b a,
  bit_or_comm_fuel n (a / 2) (b / 2) (omega arith) (omega arith),
)

pub bit_or_comm : (a b : ℕ) → bit_or a b ≡ bit_or b a
bit_or_comm a b = bit_or_comm_fuel (a + b) a b (omega arith) (omega arith)

bit_or_assoc_fuel :
    (n a b c : ℕ) → a ≤ n → b ≤ n → c ≤ n → bit_or (bit_or a b) c ≡ bit_or a (bit_or b c)
bit_or_assoc_fuel zero zero zero zero p q r = refl
bit_or_assoc_fuel zero zero zero (suc c) p q r = absurd (omega arith)
bit_or_assoc_fuel zero zero (suc b) c p q r = absurd (omega arith)
bit_or_assoc_fuel zero (suc a) b c p q r = absurd (omega arith)
bit_or_assoc_fuel (suc n) a b c p q r =
    rw (bit_or_step (bit_or a b) c, bit_or_step a (bit_or b c))
      (rw (bit_or-half a b, bit_or-half b c)
        (omega (
          arith,
          bit_or-parity a b,
          bit_or-parity b c,
          bit_or_assoc_fuel n (a / 2) (b / 2) (c / 2) (omega arith) (omega arith) (omega arith),
        )))

pub bit_or_assoc : (a b c : ℕ) → bit_or (bit_or a b) c ≡ bit_or a (bit_or b c)
bit_or_assoc a b c = bit_or_assoc_fuel (a + b + c) a b c (omega arith) (omega arith) (omega arith)

bit_and-bit_or_fuel :
    (n a b m : ℕ)
    → a ≤ n
    → b ≤ n
    → m ≤ n
    → bit_and (bit_or a b) m ≡ bit_or (bit_and a m) (bit_and b m)
bit_and-bit_or_fuel zero zero zero zero p q r = refl
bit_and-bit_or_fuel zero zero zero (suc c) p q r = absurd (omega arith)
bit_and-bit_or_fuel zero zero (suc b) c p q r = absurd (omega arith)
bit_and-bit_or_fuel zero (suc a) b c p q r = absurd (omega arith)
bit_and-bit_or_fuel (suc n) a b m p q r =
    rw (bit_and_step (bit_or a b) m, bit_or_step (bit_and a m) (bit_and b m))
      (rw (bit_or-half a b, bit_and-half a m, bit_and-half b m)
        (omega (
          arith,
          bit_or-parity a b,
          bit_and-parity a m,
          bit_and-parity b m,
          bit_and-bit_or_fuel n (a / 2) (b / 2) (m / 2) (omega arith) (omega arith) (omega arith),
        )))

pub bit_and-bit_or : (a b m : ℕ) → bit_and (bit_or a b) m ≡ bit_or (bit_and a m) (bit_and b m)
bit_and-bit_or a b m =
    bit_and-bit_or_fuel (a + b + m) a b m (omega arith) (omega arith) (omega arith)

bit_or_self_fuel : (n a : ℕ) → a ≤ n → bit_or a a ≡ a
bit_or_self_fuel zero zero p = refl
bit_or_self_fuel zero (suc a) p = absurd (omega arith)
bit_or_self_fuel (suc n) a p =
    omega (arith, bit_or_step a a, bit_or_self_fuel n (a / 2) (omega arith))

pub bit_or_self : (a : ℕ) → bit_or a a ≡ a
bit_or_self a = bit_or_self_fuel a a (le_refl _)

pub zero-bit_or : (b : ℕ) → bit_or 0 b ≡ b
zero-bit_or b = bit_or-bitwise 0 b

pub bit_or-zero : (a : ℕ) → bit_or a 0 ≡ a
bit_or-zero a = bit_or_comm a 0 ∙ zero-bit_or a

-- `|` stays within the width of its operands, and `&` below its mask.
pub bit_or-lt_pow : (k a b : ℕ) → a < 2 ^ k → b < 2 ^ k → bit_or a b < 2 ^ k
bit_or-lt_pow zero a b p q =
    let ea : a ≡ 0 = omega arith in let eb : b ≡ 0 = omega arith in rw (ea, eb) (omega arith)
bit_or-lt_pow (suc k) a b p q = omega (
  arith,
  pow-suc 2 k,
  bit_or_step a b,
  bit_or-lt_pow k (a / 2) (b / 2) (omega (arith, pow-suc 2 k)) (omega (arith, pow-suc 2 k)),
)

bit_and-le_fuel : (n a m : ℕ) → m ≤ n → bit_and a m ≤ m
bit_and-le_fuel zero a zero p = rw (bit_and-zero a) (omega arith)
bit_and-le_fuel zero a (suc m) p = absurd (omega arith)
bit_and-le_fuel (suc n) a m p =
    omega (arith, bit_and_step a m, bit_and-le_fuel n (a / 2) (m / 2) (omega arith))

pub bit_and-le : (a m : ℕ) → bit_and a m ≤ m
bit_and-le a m = bit_and-le_fuel m a m (le_refl _)

bit_xor_step : (a b : ℕ) → bit_xor a b ≡ bit_xor (a / 2) (b / 2) * 2 + differ (a % 2) (b % 2)
bit_xor_step zero y = omega (arith, bit_xor-bitwise 0 y, bit_xor-bitwise 0 (y / 2))
bit_xor_step (suc x) y =
    rw (bit_xor-bitwise (suc x) y, bit_xor-bitwise (suc x / 2) (y / 2))
      (bitwise_unfolded (λ d. d) differ x y)

differ-zero : (d : ℕ) → differ d 0 ≡ d
differ-zero zero = refl
differ-zero (suc d) = refl

differ-one : (d : ℕ) → d < 2 → differ d 1 ≡ 1 - d
differ-one zero h = refl
differ-one (suc zero) h = refl
differ-one (suc (suc d)) h = absurd (omega arith)

bit_xor-zero_below : (bound x : ℕ) → x < bound → bit_xor x 0 ≡ x
bit_xor-zero_below zero x below = absurd (omega arith)
bit_xor-zero_below (suc bound) zero below = refl
bit_xor-zero_below (suc bound) (suc x) below = omega (
  arith,
  bit_xor_step (suc x) 0,
  bit_xor-zero_below bound (suc x / 2) (omega arith),
  differ-zero (suc x % 2),
)

-- The neighbour of a position.
pub flip_bit_0 : (a : ℕ) → bit_xor a 1 ≡ a / 2 * 2 + (1 - a % 2)
flip_bit_0 a = omega (
  arith,
  bit_xor_step a 1,
  bit_xor-zero_below (suc a) (a / 2) (omega arith),
  differ-one (a % 2) (omega arith),
)
