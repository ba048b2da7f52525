-- ===== src/Prelude/Words.antt =====
-- Machine words as native numbers: `u8`, `u16` and `u64` with their wrap-around written out.
use Prim.Native.Nat.{ℕ, ◌+◌, ◌-◌, ◌*◌, ◌/◌, ◌%◌, ◌^◌, ◌<◌, bit_and}
use mathlib.Core.Bool.{Bool, true, false, not}
use zksm.Prelude.Tests.{◌==◌, ltb, if◌then◌else◌}

abbrev pub IsU8 : ℕ → Type 0
IsU8 x = x < 256

abbrev pub IsU16 : ℕ → Type 0
IsU16 x = x < 65536

abbrev pub u64_limit : ℕ
u64_limit = 2 ^ 64

-- `wrapping_add` and `wrapping_sub`; the modulus is added first, since `-` stops at 0.
abbrev pub u8_add : ℕ → ℕ → ℕ
u8_add a b = (a + b) % 256

abbrev pub u8_sub : ℕ → ℕ → ℕ
u8_sub a b = (a + 256 - b) % 256

abbrev pub u16_add : ℕ → ℕ → ℕ
u16_add a b = (a + b) % 65536

abbrev pub u16_sub : ℕ → ℕ → ℕ
u16_sub a b = (a + 65536 - b) % 65536

-- `w.wrapping_add_signed(i16::from(i8::from_ne_bytes([e])))`
abbrev pub u16_add_signed : ℕ → ℕ → ℕ
u16_add_signed w e = if ltb e 128 then (w + e) % 65536 else (w + 65536 - (256 - e)) % 65536

-- `!x` of a byte.
abbrev pub complement : ℕ → ℕ
complement x = 255 - x

-- `x & mask != 0`
abbrev pub has_bits : ℕ → ℕ → Bool
has_bits x mask = not (bit_and x mask == 0)

-- `to_be_bytes` and `from_be_bytes` of a `u16`.
abbrev pub high_byte : ℕ → ℕ
high_byte w = w / 256

abbrev pub low_byte : ℕ → ℕ
low_byte w = w % 256

abbrev pub word : ℕ → ℕ → ℕ
word high low = high * 256 + low

-- `u8::from(bool)`
abbrev pub of_bool : Bool → ℕ
of_bool true = 1
of_bool false = 0
