-- ===== src/Flags.antt =====
-- The F register (crates/zksm83-core/src/state.rs, `Flags`).
pub mod Laws
use zksm.Prelude.{ℕ, bit_and, bit_or, Bool, ok, err, Result, has_bits, ◌==◌, if◌then◌else◌}

pub record Flags : Type 0 where
  pub byte : ℕ

abbrev zero_mask : ℕ
zero_mask = 0x80

abbrev subtract_mask : ℕ
subtract_mask = 0x40

abbrev half_carry_mask : ℕ
half_carry_mask = 0x20

abbrev carry_mask : ℕ
carry_mask = 0x10

-- `VmStateError::InvalidFlags`
pub data InvalidFlags : Type 0 where
  invalid_flags : ℕ → InvalidFlags

unfoldable pub from_byte : ℕ → Result InvalidFlags Flags
from_byte value =
    if bit_and value 0x0f == 0 then ok (record { byte = value }) else err (invalid_flags value)

abbrev bool_mask : Bool → ℕ → ℕ
bool_mask value mask = if value then mask else 0

unfoldable pub from_bits : Bool → Bool → Bool → Bool → Flags
from_bits zero subtract half_carry carry = record {
  byte =
      bit_or
        (bit_or (bit_or (bool_mask zero zero_mask) (bool_mask subtract subtract_mask))
          (bool_mask half_carry half_carry_mask))
        (bool_mask carry carry_mask);
}

unfoldable pub zero_flag : Flags → Bool
zero_flag flags = has_bits flags.byte zero_mask

unfoldable pub subtract_flag : Flags → Bool
subtract_flag flags = has_bits flags.byte subtract_mask

unfoldable pub half_carry_flag : Flags → Bool
half_carry_flag flags = has_bits flags.byte half_carry_mask

unfoldable pub carry_flag : Flags → Bool
carry_flag flags = has_bits flags.byte carry_mask
