-- ===== src/Alu/Rotate.antt =====
-- Pairs of rotations of crates/zksm83-core/src/alu.rs.
use mathlib.Core.Option
use zksm.Prelude.{ℕ, ◌<◌, ◌≡◌, refl, Bool, true, false, ◌&&◌, ◌==◌, some, none, Option, arith}
use zksm.Prelude.{all_below, all_below_sound}
use zksm.Isa.Types.{CbOperation}
use zksm.Flags.{from_bits, carry_flag}
use zksm.Alu.{ByteResult, rotate_shift}

-- The operations that undo one another when the carry goes from the first into the second.
pub data Undoes : CbOperation → CbOperation → Type 0 where
  circular_left : Undoes CbOperation.rotate_left_circular CbOperation.rotate_right_circular
  circular_right : Undoes CbOperation.rotate_right_circular CbOperation.rotate_left_circular
  through_left : Undoes CbOperation.rotate_left CbOperation.rotate_right
  through_right : Undoes CbOperation.rotate_right CbOperation.rotate_left
  swapped : Undoes CbOperation.swap_nibbles CbOperation.swap_nibbles

abbrev and_then : CbOperation → Bool → Option ByteResult → Option ℕ
and_then second z none = none
and_then second z (some r) =
    Option.map (λ s. s.value) (rotate_shift second r.value (carry_flag r.flags) z)

-- The byte after both operations.
abbrev pub rotated_twice : CbOperation → CbOperation → ℕ → Bool → Bool → Option ℕ
rotated_twice first second v c z = and_then second z (rotate_shift first v c z)

abbrev is_value : Option ℕ → ℕ → Bool
is_value none v = false
is_value (some w) v = w == v

abbrev restored : CbOperation → CbOperation → ℕ → Bool
restored first second v =
    is_value (rotated_twice first second v true true) v
    && (is_value (rotated_twice first second v true false) v
        && (is_value (rotated_twice first second v false true) v
            && is_value (rotated_twice first second v false false) v))

restored_table : {p q : CbOperation} → Undoes p q → all_below 256 (restored p q) ≡ true
unfolding rotate_shift all_below from_bits carry_flag
restored_table circular_left = refl
restored_table circular_right = refl
restored_table through_left = refl
restored_table through_right = refl
restored_table swapped = refl

restored-at :
    (p q : CbOperation) (v : ℕ) (c z : Bool)
    → restored p q v ≡ true
    → is_value (rotated_twice p q v c z) v ≡ true
restored-at p q v true true h = ground arith
restored-at p q v true false h = ground arith
restored-at p q v false true h = ground arith
restored-at p q v false false h = ground arith

is_value-eq_some : (o : Option ℕ) (v : ℕ) → is_value o v ≡ true → o ≡ some v
is_value-eq_some none v h = ground arith
is_value-eq_some (some w) v h = ground arith

-- A rotation or nibble swap of a byte followed by its opposite, with the carry handed over, gives
-- the byte back.
pub rotate_shift_undo :
    {p q : CbOperation} (v : ℕ) (c z : Bool)
    → Undoes p q
    → v < 256
    → rotated_twice p q v c z ≡ some v
rotate_shift_undo {p} {q} v c z u h =
    is_value-eq_some (rotated_twice p q v c z) v
      (restored-at p q v c z (all_below_sound 256 (restored p q) v (restored_table u) h))
