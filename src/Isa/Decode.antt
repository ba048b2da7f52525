-- ===== src/Isa/Decode.antt =====
-- The opcode tables of crates/zksm83-isa/src/decode.rs.
use mathlib.Core.Option.{Option, none, some}
use zksm.Prelude.{
  ℕ, ◌*◌, ◌-◌, ◌/◌, ◌%◌, Bool, ◌==◌, ◌&&◌, ◌||◌, ltb, if◌then◌else◌, [], ◌∷◌, select, any_of,
}
use zksm.Isa.Types.{
  Register8, Register16, StackRegister16, Operand8, IndirectAddress, TransferDirection, Condition,
  AluOperation, CbOperation, Operation, InstructionEncoding, DecodedInstruction,
  OpcodeClassification,
}
use zksm.Isa.Metadata.{instruction}

unfoldable pub operand8 : ℕ → Operand8
operand8 code =
    select code
      ((Operand8.register Register8.b)
        ∷ (Operand8.register Register8.c)
        ∷ (Operand8.register Register8.d)
        ∷ (Operand8.register Register8.e)
        ∷ (Operand8.register Register8.h)
        ∷ (Operand8.register Register8.l)
        ∷ Operand8.indirect_hl
        ∷ [])
      (Operand8.register Register8.a)

unfoldable pub register16 : ℕ → Register16
register16 code = select code (Register16.bc ∷ Register16.de ∷ Register16.hl ∷ []) Register16.sp

unfoldable pub stack_register16 : ℕ → StackRegister16
stack_register16 code =
    select code (StackRegister16.bc ∷ StackRegister16.de ∷ StackRegister16.hl ∷ [])
      StackRegister16.af

unfoldable pub condition : ℕ → Condition
condition code =
    select code (Condition.not_zero ∷ Condition.zero ∷ Condition.not_carry ∷ []) Condition.carry

unfoldable pub alu_operation : ℕ → AluOperation
alu_operation code =
    select code
      (AluOperation.add ∷ AluOperation.add_carry ∷ AluOperation.subtract
        ∷ AluOperation.subtract_carry ∷ AluOperation.and ∷ AluOperation.xor ∷ AluOperation.or ∷ [])
      AluOperation.compare

unfoldable pub cb_rotate : ℕ → CbOperation
cb_rotate code =
    select code
      (CbOperation.rotate_left_circular ∷ CbOperation.rotate_right_circular
        ∷ CbOperation.rotate_left ∷ CbOperation.rotate_right ∷ CbOperation.shift_left_arithmetic
        ∷ CbOperation.shift_right_arithmetic ∷ CbOperation.swap_nibbles ∷ [])
      CbOperation.shift_right_logical

-- The operation, its byte length, its M-cycles and those of a taken branch.
pub record Row : Type 0 where
  pub operation : Operation
  pub byte_len : ℕ
  pub base_m_cycles : ℕ
  pub taken_m_cycles : Option ℕ

abbrev tuple : Operation → ℕ → ℕ → Row
tuple operation byte_len m_cycles = record {
  operation = operation;
  byte_len = byte_len;
  base_m_cycles = m_cycles;
  taken_m_cycles = none;
}

abbrev conditional : Operation → ℕ → ℕ → ℕ → Row
conditional operation byte_len base taken = record {
  operation = operation;
  byte_len = byte_len;
  base_m_cycles = base;
  taken_m_cycles = some taken;
}

abbrev indirect_address : ℕ → IndirectAddress
indirect_address code =
    select code (IndirectAddress.bc ∷ IndirectAddress.de ∷ IndirectAddress.hl_increment ∷ [])
      IndirectAddress.hl_decrement

unfoldable pub indirect_accumulator : ℕ → Operation
indirect_accumulator y =
    Operation.load_accumulator_indirect (indirect_address (y / 2)) (
      if y % 2 == 0 then TransferDirection.from_accumulator else TransferDirection.into_accumulator)

unfoldable pub block_zero_misc : ℕ → Operation
block_zero_misc y =
    select y
      ((Operation.rotate_accumulator CbOperation.rotate_left_circular)
        ∷ (Operation.rotate_accumulator CbOperation.rotate_right_circular)
        ∷ (Operation.rotate_accumulator CbOperation.rotate_left)
        ∷ (Operation.rotate_accumulator CbOperation.rotate_right)
        ∷ Operation.decimal_adjust
        ∷ Operation.complement_accumulator
        ∷ Operation.set_carry
        ∷ [])
      Operation.complement_carry

-- Row z = 0 of the first block, by y.
abbrev block_zero_control : ℕ → Row
block_zero_control y =
    select y
      ((tuple Operation.nop 1 1)
        ∷ (tuple Operation.store_sp_absolute 3 5)
        ∷ (tuple Operation.stop 2 1)
        ∷ (tuple (Operation.relative_jump none) 2 3)
        ∷ [])
      (conditional (Operation.relative_jump (some (condition (y - 4)))) 2 2 3)

unfoldable pub decode_block_zero : (y z p q : ℕ) → Row
unfolding condition register16 indirect_accumulator operand8 block_zero_misc
decode_block_zero y z p q =
    select z
      ((block_zero_control y)
        ∷ (if q == 0
            then tuple (Operation.load16_immediate (register16 p)) 3 3
            else tuple (Operation.add_hl (register16 p)) 1 2)
        ∷ (tuple (indirect_accumulator y) 1 2)
        ∷ (if q == 0
            then tuple (Operation.increment16 (register16 p)) 1 2
            else tuple (Operation.decrement16 (register16 p)) 1 2)
        ∷ (tuple (Operation.increment8 (operand8 y)) 1 (if y == 6 then 3 else 1))
        ∷ (tuple (Operation.decrement8 (operand8 y)) 1 (if y == 6 then 3 else 1))
        ∷ (tuple (Operation.load8_immediate (operand8 y)) 2 (if y == 6 then 3 else 2))
        ∷ [])
      (tuple (block_zero_misc y) 1 1)

unfoldable pub decode_block_one : (y z : ℕ) → Row
unfolding operand8
decode_block_one y z =
    if y == 6 && z == 6
    then tuple Operation.halt 1 1
    else tuple (Operation.load8 (operand8 y) (operand8 z)) 1 (if y == 6 || z == 6 then 2 else 1)

unfoldable pub decode_block_two : (y z : ℕ) → Row
unfolding operand8 alu_operation
decode_block_two y z =
    tuple (Operation.alu8 (alu_operation y) (operand8 z)) 1 (if z == 6 then 2 else 1)

abbrev return_row : ℕ → Row
return_row p =
    select p
      ((tuple (Operation.return none) 1 4)
        ∷ (tuple Operation.return_from_interrupt 1 4)
        ∷ (tuple Operation.jump_hl 1 1)
        ∷ [])
      (tuple Operation.load_sp_hl 1 2)

unfoldable pub decode_block_three_z_one : (p q : ℕ) → Row
unfolding stack_register16
decode_block_three_z_one p q =
    if q == 0 then tuple (Operation.pop (stack_register16 p)) 1 3 else return_row p

-- Rows z = 0, 2 and 3 of the last block, by y; conditional for the first four in rows 0 and 2.
abbrev high_row : ℕ → Row
high_row y =
    select (y - 4)
      ((tuple (Operation.high_immediate_load TransferDirection.from_accumulator) 2 3)
        ∷ (tuple Operation.add_sp_offset 2 4)
        ∷ (tuple (Operation.high_immediate_load TransferDirection.into_accumulator) 2 3)
        ∷ [])
      (tuple Operation.load_hl_sp_offset 2 3)

abbrev absolute_row : ℕ → Row
absolute_row y =
    select (y - 4)
      ((tuple (Operation.high_c_load TransferDirection.from_accumulator) 1 2)
        ∷ (tuple (Operation.absolute_accumulator_load TransferDirection.from_accumulator) 3 4)
        ∷ (tuple (Operation.high_c_load TransferDirection.into_accumulator) 1 2)
        ∷ [])
      (tuple (Operation.absolute_accumulator_load TransferDirection.into_accumulator) 3 4)

abbrev interrupt_row : ℕ → Row
interrupt_row y =
    if y == 0
    then tuple (Operation.jump none) 3 4
    else if y == 1
    then tuple Operation.prefix_cb 1 1
    else if y == 6
    then tuple Operation.disable_interrupts 1 1
    else tuple Operation.enable_interrupts 1 1

unfoldable pub decode_block_three : (y z p q : ℕ) → Row
unfolding condition stack_register16 alu_operation decode_block_three_z_one
decode_block_three y z p q =
    select z
      ((if ltb y 4 then conditional (Operation.return (some (condition y))) 1 2 5 else high_row y)
        ∷ (decode_block_three_z_one p q)
        ∷ (if ltb y 4
            then conditional (Operation.jump (some (condition y))) 3 3 4
            else absolute_row y)
        ∷ (interrupt_row y)
        ∷ (conditional (Operation.call (some (condition y))) 3 3 6)
        ∷ (if q == 0
            then tuple (Operation.push (stack_register16 p)) 1 4
            else tuple (Operation.call none) 3 6)
        ∷ (tuple (Operation.alu8 (alu_operation y) Operand8.immediate) 2 2)
        ∷ [])
      (tuple (Operation.restart (y * 8)) 1 4)

abbrev decode_block : (x y z p q : ℕ) → Row
decode_block x y z p q =
    select x ((decode_block_zero y z p q) ∷ (decode_block_one y z) ∷ (decode_block_two y z) ∷ [])
      (decode_block_three y z p q)

-- The fields of an opcode byte: `y` is `(byte >> 3) & 7`, `p` its upper two bits, `q` its lowest.
unfoldable pub decode_defined_primary : ℕ → DecodedInstruction
unfolding instruction decode_block_zero decode_block_one decode_block_two decode_block_three
decode_defined_primary byte =
    let y = byte / 8 % 8 in
    let row = decode_block (byte / 64) y (byte % 8) (y / 2) (y % 2) in
    instruction (InstructionEncoding.primary byte) row.operation row.byte_len row.base_m_cycles
      row.taken_m_cycles

unfoldable pub is_undefined : ℕ → Bool
is_undefined byte =
    any_of byte (0xd3 ∷ 0xdb ∷ 0xdd ∷ 0xe3 ∷ 0xe4 ∷ 0xeb ∷ 0xec ∷ 0xed ∷ 0xf4 ∷ 0xfc ∷ 0xfd ∷ [])

unfoldable pub decode_primary : ℕ → OpcodeClassification
unfolding is_undefined decode_defined_primary
decode_primary byte =
    if is_undefined byte
    then OpcodeClassification.undefined byte
    else OpcodeClassification.defined (decode_defined_primary byte)

abbrev cb_operation : (x y : ℕ) → CbOperation
cb_operation x y =
    select x ((cb_rotate y) ∷ (CbOperation.test_bit y) ∷ (CbOperation.reset_bit y) ∷ [])
      (CbOperation.set_bit y)

abbrev cb_m_cycles : ℕ → Operand8 → ℕ
cb_m_cycles x Operand8.indirect_hl = if x == 1 then 3 else 4
cb_m_cycles x _ = 2

unfoldable pub decode_cb : ℕ → DecodedInstruction
unfolding instruction operand8 cb_rotate
decode_cb byte =
    let target = operand8 (byte % 8) in
    instruction (InstructionEncoding.cb byte)
      (Operation.cb (cb_operation (byte / 64) (byte / 8 % 8)) target) 2
      (cb_m_cycles (byte / 64) target) none
