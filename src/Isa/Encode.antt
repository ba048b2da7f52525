-- ===== src/Isa/Encode.antt =====
-- An assembler for the typed operations, as an independent description of the opcode tables.
use mathlib.Core.Option.{none, some}
use zksm.Prelude.{ℕ, ◌+◌, ◌*◌}
use zksm.Isa.Types.{IndirectAddress, TransferDirection, Condition, Operand8, CbOperation, Operation}
use zksm.Isa.Alignment.{
  operand8_code, register16_code, stack_register_code, alu_code, cb_operation_code,
}

-- The two bits of a condition in an opcode.
abbrev condition_bits : Condition → ℕ
condition_bits Condition.not_zero = 0
condition_bits Condition.zero = 1
condition_bits Condition.not_carry = 2
condition_bits Condition.carry = 3

abbrev indirect_bits : IndirectAddress → ℕ
indirect_bits IndirectAddress.bc = 0x00
indirect_bits IndirectAddress.de = 0x10
indirect_bits IndirectAddress.hl_increment = 0x20
indirect_bits IndirectAddress.hl_decrement = 0x30

-- The opcode bit that turns a store of the accumulator into a load.
abbrev direction_bit : TransferDirection → ℕ → ℕ
direction_bit TransferDirection.into_accumulator step = step
direction_bit TransferDirection.from_accumulator step = 0

-- The second byte of a CB-prefixed operation.
abbrev encode_cb : CbOperation → Operand8 → ℕ
encode_cb (CbOperation.test_bit n) operand = 0x40 + n * 8 + operand8_code operand
encode_cb (CbOperation.reset_bit n) operand = 0x80 + n * 8 + operand8_code operand
encode_cb (CbOperation.set_bit n) operand = 0xc0 + n * 8 + operand8_code operand
encode_cb o operand = cb_operation_code o * 8 + operand8_code operand

-- The opcode byte of an operation; of a CB-prefixed one its second byte.
unfoldable pub encode : Operation → ℕ
unfolding operand8_code register16_code stack_register_code alu_code cb_operation_code
encode Operation.nop = 0x00
encode Operation.store_sp_absolute = 0x08
encode Operation.stop = 0x10
encode (Operation.relative_jump none) = 0x18
encode (Operation.relative_jump (some c)) = 0x20 + condition_bits c * 8
encode (Operation.load16_immediate r) = 0x01 + register16_code r * 16
encode (Operation.add_hl r) = 0x09 + register16_code r * 16
encode (Operation.load_accumulator_indirect a d) = 0x02 + indirect_bits a + direction_bit d 8
encode (Operation.increment16 r) = 0x03 + register16_code r * 16
encode (Operation.decrement16 r) = 0x0b + register16_code r * 16
encode (Operation.increment8 o) = 0x04 + operand8_code o * 8
encode (Operation.decrement8 o) = 0x05 + operand8_code o * 8
encode (Operation.load8_immediate o) = 0x06 + operand8_code o * 8
encode (Operation.rotate_accumulator r) = 0x07 + cb_operation_code r * 8
encode Operation.decimal_adjust = 0x27
encode Operation.complement_accumulator = 0x2f
encode Operation.set_carry = 0x37
encode Operation.complement_carry = 0x3f
encode (Operation.load8 d s) = 0x40 + operand8_code d * 8 + operand8_code s
encode Operation.halt = 0x76
encode (Operation.alu8 o Operand8.immediate) = 0xc6 + alu_code o * 8
encode (Operation.alu8 o s) = 0x80 + alu_code o * 8 + operand8_code s
encode (Operation.return none) = 0xc9
encode (Operation.return (some c)) = 0xc0 + condition_bits c * 8
encode (Operation.high_immediate_load d) = 0xe0 + direction_bit d 0x10
encode Operation.add_sp_offset = 0xe8
encode Operation.load_hl_sp_offset = 0xf8
encode (Operation.pop r) = 0xc1 + stack_register_code r * 16
encode Operation.return_from_interrupt = 0xd9
encode Operation.jump_hl = 0xe9
encode Operation.load_sp_hl = 0xf9
encode (Operation.jump none) = 0xc3
encode (Operation.jump (some c)) = 0xc2 + condition_bits c * 8
encode (Operation.high_c_load d) = 0xe2 + direction_bit d 0x10
encode (Operation.absolute_accumulator_load d) = 0xea + direction_bit d 0x10
encode Operation.prefix_cb = 0xcb
encode Operation.disable_interrupts = 0xf3
encode Operation.enable_interrupts = 0xfb
encode (Operation.call none) = 0xcd
encode (Operation.call (some c)) = 0xc4 + condition_bits c * 8
encode (Operation.push r) = 0xc5 + stack_register_code r * 16
encode (Operation.restart vector) = 0xc7 + vector
encode (Operation.cb o operand) = encode_cb o operand
