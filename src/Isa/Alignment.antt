-- ===== src/Isa/Alignment.antt =====
-- The stable codes of an operation: `descriptor` of crates/zksm83-isa/src/types.rs, and the
-- program-counter and flag codes of alignment.rs.
pub mod Rows
pub mod Packing
use mathlib.Core.Option.{Option, none, some}
use zksm.Prelude.{ℕ, ◌/◌}
use zksm.Isa.Types.{
  Register8, Register16, StackRegister16, Operand8, IndirectAddress, TransferDirection, Condition,
  AluOperation, CbOperation, Operation, FlagAction,
}

pub data ProgramCounterRule : Type 0 where
  sequential relative absolute indirect_hl call return restart : ProgramCounterRule

unfoldable pub pc_rule_code : ProgramCounterRule → ℕ
pc_rule_code ProgramCounterRule.sequential = 0
pc_rule_code ProgramCounterRule.relative = 1
pc_rule_code ProgramCounterRule.absolute = 2
pc_rule_code ProgramCounterRule.indirect_hl = 3
pc_rule_code ProgramCounterRule.call = 4
pc_rule_code ProgramCounterRule.return = 5
pc_rule_code ProgramCounterRule.restart = 6

unfoldable pub pc_rule : Operation → ProgramCounterRule
pc_rule (Operation.relative_jump _) = ProgramCounterRule.relative
pc_rule (Operation.jump _) = ProgramCounterRule.absolute
pc_rule Operation.jump_hl = ProgramCounterRule.indirect_hl
pc_rule (Operation.call _) = ProgramCounterRule.call
pc_rule (Operation.return _) = ProgramCounterRule.return
pc_rule Operation.return_from_interrupt = ProgramCounterRule.return
pc_rule (Operation.restart _) = ProgramCounterRule.restart
pc_rule _ = ProgramCounterRule.sequential

unfoldable pub flag_action_code : FlagAction → ℕ
flag_action_code FlagAction.preserve = 0
flag_action_code FlagAction.clear = 1
flag_action_code FlagAction.set = 2
flag_action_code FlagAction.derived = 3

unfoldable pub condition_code : Option Condition → ℕ
condition_code none = 0
condition_code (some Condition.not_zero) = 1
condition_code (some Condition.zero) = 2
condition_code (some Condition.not_carry) = 3
condition_code (some Condition.carry) = 4

unfoldable pub operand8_code : Operand8 → ℕ
operand8_code (Operand8.register Register8.b) = 0
operand8_code (Operand8.register Register8.c) = 1
operand8_code (Operand8.register Register8.d) = 2
operand8_code (Operand8.register Register8.e) = 3
operand8_code (Operand8.register Register8.h) = 4
operand8_code (Operand8.register Register8.l) = 5
operand8_code Operand8.indirect_hl = 6
operand8_code (Operand8.register Register8.a) = 7
operand8_code Operand8.immediate = 8

unfoldable pub register16_code : Register16 → ℕ
register16_code Register16.bc = 0
register16_code Register16.de = 1
register16_code Register16.hl = 2
register16_code Register16.sp = 3

unfoldable pub stack_register_code : StackRegister16 → ℕ
stack_register_code StackRegister16.bc = 0
stack_register_code StackRegister16.de = 1
stack_register_code StackRegister16.hl = 2
stack_register_code StackRegister16.af = 3

unfoldable pub indirect_code : IndirectAddress → ℕ
indirect_code IndirectAddress.bc = 0
indirect_code IndirectAddress.de = 1
indirect_code IndirectAddress.hl_increment = 2
indirect_code IndirectAddress.hl_decrement = 3

unfoldable pub direction_code : TransferDirection → ℕ
direction_code TransferDirection.into_accumulator = 0
direction_code TransferDirection.from_accumulator = 1

unfoldable pub alu_code : AluOperation → ℕ
alu_code AluOperation.add = 0
alu_code AluOperation.add_carry = 1
alu_code AluOperation.subtract = 2
alu_code AluOperation.subtract_carry = 3
alu_code AluOperation.and = 4
alu_code AluOperation.xor = 5
alu_code AluOperation.or = 6
alu_code AluOperation.compare = 7

unfoldable pub cb_operation_code : CbOperation → ℕ
cb_operation_code CbOperation.rotate_left_circular = 0
cb_operation_code CbOperation.rotate_right_circular = 1
cb_operation_code CbOperation.rotate_left = 2
cb_operation_code CbOperation.rotate_right = 3
cb_operation_code CbOperation.shift_left_arithmetic = 4
cb_operation_code CbOperation.shift_right_arithmetic = 5
cb_operation_code CbOperation.swap_nibbles = 6
cb_operation_code CbOperation.shift_right_logical = 7
cb_operation_code (CbOperation.test_bit bit) = bit
cb_operation_code (CbOperation.reset_bit bit) = bit
cb_operation_code (CbOperation.set_bit bit) = bit

pub record InstructionDescriptor : Type 0 where
  pub operation : ℕ
  pub argument_zero : ℕ
  pub argument_one : ℕ

abbrev codes : ℕ → ℕ → ℕ → InstructionDescriptor
codes o x y = record { operation = o; argument_zero = x; argument_one = y }

unfoldable pub cb_descriptor : CbOperation → Operand8 → InstructionDescriptor
unfolding operand8_code cb_operation_code
cb_descriptor (CbOperation.test_bit bit) operand = codes 38 bit (operand8_code operand)
cb_descriptor (CbOperation.reset_bit bit) operand = codes 39 bit (operand8_code operand)
cb_descriptor (CbOperation.set_bit bit) operand = codes 40 bit (operand8_code operand)
cb_descriptor operation operand = codes 37 (cb_operation_code operation) (operand8_code operand)

unfoldable pub descriptor : Operation → InstructionDescriptor
unfolding condition_code operand8_code register16_code stack_register_code indirect_code
    direction_code alu_code cb_operation_code cb_descriptor
descriptor Operation.nop = codes 0 0 0
descriptor Operation.store_sp_absolute = codes 1 0 0
descriptor Operation.stop = codes 2 0 0
descriptor (Operation.relative_jump condition) = codes 3 (condition_code condition) 0
descriptor (Operation.load16_immediate register) = codes 4 (register16_code register) 0
descriptor (Operation.add_hl register) = codes 5 (register16_code register) 0
descriptor (Operation.load_accumulator_indirect address direction) =
    codes 6 (indirect_code address) (direction_code direction)
descriptor (Operation.increment16 register) = codes 7 (register16_code register) 0
descriptor (Operation.decrement16 register) = codes 8 (register16_code register) 0
descriptor (Operation.increment8 operand) = codes 9 (operand8_code operand) 0
descriptor (Operation.decrement8 operand) = codes 10 (operand8_code operand) 0
descriptor (Operation.load8_immediate operand) = codes 11 (operand8_code operand) 0
descriptor (Operation.rotate_accumulator rotate) = codes 12 (cb_operation_code rotate) 0
descriptor Operation.decimal_adjust = codes 13 0 0
descriptor Operation.complement_accumulator = codes 14 0 0
descriptor Operation.set_carry = codes 15 0 0
descriptor Operation.complement_carry = codes 16 0 0
descriptor (Operation.load8 destination source) =
    codes 17 (operand8_code destination) (operand8_code source)
descriptor Operation.halt = codes 18 0 0
descriptor (Operation.alu8 alu source) = codes 19 (alu_code alu) (operand8_code source)
descriptor (Operation.return condition) = codes 20 (condition_code condition) 0
descriptor (Operation.high_immediate_load direction) = codes 21 (direction_code direction) 0
descriptor Operation.add_sp_offset = codes 22 0 0
descriptor Operation.load_hl_sp_offset = codes 23 0 0
descriptor (Operation.pop register) = codes 24 (stack_register_code register) 0
descriptor Operation.return_from_interrupt = codes 25 0 0
descriptor Operation.jump_hl = codes 26 0 0
descriptor Operation.load_sp_hl = codes 27 0 0
descriptor (Operation.jump condition) = codes 28 (condition_code condition) 0
descriptor (Operation.high_c_load direction) = codes 29 (direction_code direction) 0
descriptor (Operation.absolute_accumulator_load direction) = codes 30 (direction_code direction) 0
descriptor Operation.prefix_cb = codes 31 0 0
descriptor Operation.disable_interrupts = codes 32 0 0
descriptor Operation.enable_interrupts = codes 33 0 0
descriptor (Operation.call condition) = codes 34 (condition_code condition) 0
descriptor (Operation.push register) = codes 35 (stack_register_code register) 0
descriptor (Operation.restart vector) = codes 36 (vector / 8) 0
descriptor (Operation.cb cb operand) = cb_descriptor cb operand
