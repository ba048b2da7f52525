-- ===== src/Flags/Laws.antt =====
-- The flags of an encoded F register (`Flags` of crates/zksm83-core/src/state.rs).
use zksm.Prelude.{ℕ, ◌<◌, ◌≡◌, refl, Bool, true, false, arith, ◌↔◌, bit_and, ◌==◌, ok}
use zksm.Prelude.{all_below, all_below_sound, not}
use zksm.Flags.{Flags, from_byte, from_bits, zero_flag, subtract_flag, half_carry_flag, carry_flag}

pub zero_flag-from_bits : (z n h c : Bool) → zero_flag (from_bits z n h c) ≡ z
unfolding zero_flag from_bits
zero_flag-from_bits z n h c = ground arith

pub subtract_flag-from_bits : (z n h c : Bool) → subtract_flag (from_bits z n h c) ≡ n
unfolding subtract_flag from_bits
subtract_flag-from_bits z n h c = ground arith

pub half_carry_flag-from_bits : (z n h c : Bool) → half_carry_flag (from_bits z n h c) ≡ h
unfolding half_carry_flag from_bits
half_carry_flag-from_bits z n h c = ground arith

pub carry_flag-from_bits : (z n h c : Bool) → carry_flag (from_bits z n h c) ≡ c
unfolding carry_flag from_bits
carry_flag-from_bits z n h c = ground arith

pub ruleset flag_laws =
    (zero_flag-from_bits, subtract_flag-from_bits, half_carry_flag-from_bits, carry_flag-from_bits)

-- `f` with its four flags read and written back.
abbrev pub rebuilt : Flags → Flags
rebuilt f = from_bits (zero_flag f) (subtract_flag f) (half_carry_flag f) (carry_flag f)

abbrev same : Bool → Bool → Bool
same true q = q
same false q = not q

abbrev accepted : ℕ → Bool
accepted x = same (bit_and x 0x0f == 0) ((rebuilt (record { byte = x })).byte == x)

rebuilt_table : all_below 256 accepted ≡ true
unfolding all_below from_bits zero_flag subtract_flag half_carry_flag carry_flag
rebuilt_table = refl

-- from_byte accepts a byte exactly when it is the encoding of its own four flags.
pub from_byte-eq-ok_iff : (f : Flags) → f.byte < 256 → (from_byte f.byte ≡ ok f) ↔ (rebuilt f ≡ f)
unfolding from_byte
from_byte-eq-ok_iff f h = ground (arith, all_below_sound 256 accepted f.byte rebuilt_table h)
