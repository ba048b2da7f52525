-- ===== src/Isa/Types.antt =====
-- The typed operations and operands of crates/zksm83-isa/src/types.rs.
use Prim.Native.Nat.{ℕ}
use mathlib.Core.Option.{Option}

pub data Register8 : Type 0 where
  a b c d e h l : Register8

pub data Register16 : Type 0 where
  bc de hl sp : Register16

pub data StackRegister16 : Type 0 where
  bc de hl af : StackRegister16

pub data Operand8 : Type 0 where
  register : Register8 → Operand8
  immediate indirect_hl : Operand8

pub data IndirectAddress : Type 0 where
  bc de hl_increment hl_decrement : IndirectAddress

pub data TransferDirection : Type 0 where
  into_accumulator from_accumulator : TransferDirection

pub data Condition : Type 0 where
  not_zero zero not_carry carry : Condition

pub data AluOperation : Type 0 where
  add add_carry subtract subtract_carry and xor or compare : AluOperation

pub data CbOperation : Type 0 where
  rotate_left_circular rotate_right_circular rotate_left rotate_right : CbOperation
  shift_left_arithmetic shift_right_arithmetic swap_nibbles shift_right_logical : CbOperation
  test_bit reset_bit set_bit : ℕ → CbOperation

pub data Operation : Type 0 where
  nop store_sp_absolute stop : Operation
  relative_jump : Option Condition → Operation
  load16_immediate add_hl : Register16 → Operation
  load_accumulator_indirect : IndirectAddress → TransferDirection → Operation
  increment16 decrement16 : Register16 → Operation
  increment8 decrement8 load8_immediate : Operand8 → Operation
  rotate_accumulator : CbOperation → Operation
  decimal_adjust complement_accumulator set_carry complement_carry : Operation
  load8 : Operand8 → Operand8 → Operation
  halt : Operation
  alu8 : AluOperation → Operand8 → Operation
  return : Option Condition → Operation
  high_immediate_load : TransferDirection → Operation
  add_sp_offset load_hl_sp_offset : Operation
  pop : StackRegister16 → Operation
  return_from_interrupt jump_hl load_sp_hl : Operation
  jump : Option Condition → Operation
  high_c_load absolute_accumulator_load : TransferDirection → Operation
  prefix_cb disable_interrupts enable_interrupts : Operation
  call : Option Condition → Operation
  push : StackRegister16 → Operation
  restart : ℕ → Operation
  cb : CbOperation → Operand8 → Operation

pub data InstructionClass : Type 0 where
  control load alu8 alu16 rotate_shift bit jump call_return stack interrupt : InstructionClass
  low_power prefix : InstructionClass

-- `InstructionClass::code`
unfoldable pub class_code : InstructionClass → ℕ
class_code InstructionClass.control = 0
class_code InstructionClass.load = 1
class_code InstructionClass.alu8 = 2
class_code InstructionClass.alu16 = 3
class_code InstructionClass.rotate_shift = 4
class_code InstructionClass.bit = 5
class_code InstructionClass.jump = 6
class_code InstructionClass.call_return = 7
class_code InstructionClass.stack = 8
class_code InstructionClass.interrupt = 9
class_code InstructionClass.low_power = 10
class_code InstructionClass.prefix = 11

pub data FlagAction : Type 0 where
  preserve clear set derived : FlagAction

pub record FlagEffect : Type 0 where
  pub zero : FlagAction
  pub subtract : FlagAction
  pub half_carry : FlagAction
  pub carry : FlagAction

pub record Timing : Type 0 where
  pub base_m_cycles : ℕ
  pub taken_m_cycles : Option ℕ

pub record BusAccessPattern : Type 0 where
  pub opcode_fetches : ℕ
  pub immediate_reads : ℕ
  pub data_reads : ℕ
  pub data_writes : ℕ
  pub taken_data_reads : ℕ
  pub taken_data_writes : ℕ

pub data InstructionEncoding : Type 0 where
  primary cb : ℕ → InstructionEncoding

pub record StateAccess : Type 0 where
  pub reads : ℕ
  pub writes : ℕ

pub record DecodedInstruction : Type 0 where
  pub encoding : InstructionEncoding
  pub class : InstructionClass
  pub operation : Operation
  pub byte_len : ℕ
  pub timing : Timing
  pub flags : FlagEffect
  pub state_access : StateAccess
  pub bus : BusAccessPattern

pub data OpcodeClassification : Type 0 where
  defined : DecodedInstruction → OpcodeClassification
  undefined : ℕ → OpcodeClassification
