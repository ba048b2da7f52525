-- ===== src/Machine/Operands.antt =====
-- Immediates, registers, operands and the stack (crates/zksm83-core/src/execute.rs).
use zksm.Prelude.{
  ℕ, ◌^◌, Bool, true, not, ltb, List, Option, none, some, bit_and, u16_add, u16_sub, high_byte,
  low_byte, word, if◌then◌else◌,
}
use zksm.Isa.Types.{
  Register8, Register16, StackRegister16, Operand8, IndirectAddress, TransferDirection, Condition,
}
use zksm.Flags.{Flags, InvalidFlags, from_byte, zero_flag, carry_flag}
use zksm.Machine.State.{CpuState, Registers, VmStateError}
use zksm.Machine.Bus.{StepError}
use zksm.Machine.Executor.{
  M, pure, fail, lift, require_some, ◌>>=◌, ◌>>◌, cpu, set_registers, set_flags, set_sp,
}
use zksm.Machine.Executor.Data.{read_data, write_data}

pub record ImmediateBytes : Type 0 where
  pub first : Option ℕ
  pub second : Option ℕ

abbrev pub no_immediate : ImmediateBytes
no_immediate = record { first = none; second = none }

abbrev pub second_immediate : Option ℕ → ImmediateBytes → ℕ → M ImmediateBytes
second_immediate none immediate value = pure (record immediate { second = some value })
second_immediate (some _) immediate value = fail StepError.instruction_metadata_invariant

abbrev pub first_immediate : Option ℕ → ImmediateBytes → ℕ → M ImmediateBytes
first_immediate none immediate value = pure (record immediate { first = some value })
first_immediate (some _) immediate value = second_immediate immediate.second immediate value

unfoldable pub push_immediate : ImmediateBytes → ℕ → M ImmediateBytes
push_immediate immediate value = first_immediate immediate.first immediate value

unfoldable pub immediate_byte : ImmediateBytes → M ℕ
immediate_byte immediate = require_some StepError.missing_immediate_byte immediate.first

unfoldable pub immediate_word : ImmediateBytes → M ℕ
immediate_word immediate = do
  low ← require_some StepError.missing_immediate_byte immediate.first
  high ← require_some StepError.missing_immediate_byte immediate.second
  pure (word high low)

unfoldable pub register8_of : CpuState → Register8 → ℕ
register8_of c Register8.a = c.registers.a
register8_of c Register8.b = c.registers.b
register8_of c Register8.c = c.registers.c
register8_of c Register8.d = c.registers.d
register8_of c Register8.e = c.registers.e
register8_of c Register8.h = c.registers.h
register8_of c Register8.l = c.registers.l

unfoldable pub with_register8 : Register8 → ℕ → Registers → Registers
with_register8 Register8.a value r = record r { a = value }
with_register8 Register8.b value r = record r { b = value }
with_register8 Register8.c value r = record r { c = value }
with_register8 Register8.d value r = record r { d = value }
with_register8 Register8.e value r = record r { e = value }
with_register8 Register8.h value r = record r { h = value }
with_register8 Register8.l value r = record r { l = value }

unfoldable pub register16_of : CpuState → Register16 → ℕ
register16_of c Register16.bc = word c.registers.b c.registers.c
register16_of c Register16.de = word c.registers.d c.registers.e
register16_of c Register16.hl = word c.registers.h c.registers.l
register16_of c Register16.sp = c.sp

unfoldable pub register8 : Register8 → M ℕ
register8 register = do c ← cpu; pure (register8_of c register)

unfoldable pub set_register8 : Register8 → ℕ → M Unit
set_register8 register value = do c ← cpu; set_registers (with_register8 register value c.registers)

unfoldable pub register16 : Register16 → M ℕ
register16 register = do c ← cpu; pure (register16_of c register)

unfoldable pub set_register16 : Register16 → ℕ → M Unit
set_register16 Register16.bc value = do
  c ← cpu
  set_registers (record c.registers { b = high_byte value; c = low_byte value })
set_register16 Register16.de value = do
  c ← cpu
  set_registers (record c.registers { d = high_byte value; e = low_byte value })
set_register16 Register16.hl value = do
  c ← cpu
  set_registers (record c.registers { h = high_byte value; l = low_byte value })
set_register16 Register16.sp value = set_sp value

unfoldable pub set_accumulator : ℕ → M Unit
set_accumulator value = do c ← cpu; set_registers (record c.registers { a = value })

unfoldable pub stack_register_of : CpuState → StackRegister16 → ℕ
unfolding register16_of
stack_register_of c StackRegister16.bc = register16_of c Register16.bc
stack_register_of c StackRegister16.de = register16_of c Register16.de
stack_register_of c StackRegister16.hl = register16_of c Register16.hl
stack_register_of c StackRegister16.af = word c.registers.a c.flags.byte

unfoldable pub stack_register : StackRegister16 → M ℕ
stack_register register = do c ← cpu; pure (stack_register_of c register)

-- `StepError::InvalidState` of `VmStateError::InvalidFlags`
abbrev pub flags_error : InvalidFlags → StepError
flags_error (InvalidFlags.invalid_flags value) =
    StepError.invalid_state (VmStateError.invalid_flags value)

unfoldable pub set_stack_register : StackRegister16 → ℕ → M Unit
set_stack_register StackRegister16.bc value = set_register16 Register16.bc value
set_stack_register StackRegister16.de value = set_register16 Register16.de value
set_stack_register StackRegister16.hl value = set_register16 Register16.hl value
set_stack_register StackRegister16.af value = do
  set_accumulator (high_byte value)
  flags ← lift flags_error (from_byte (bit_and (low_byte value) 0xf0))
  set_flags flags

-- `1_u8.checked_shl(bit)`
unfoldable pub bit_mask : ℕ → M ℕ
bit_mask bit = if ltb bit 8 then pure (2 ^ bit) else fail StepError.instruction_metadata_invariant

unfoldable pub indirect_of : CpuState → IndirectAddress → ℕ
unfolding register16_of
indirect_of c IndirectAddress.bc = register16_of c Register16.bc
indirect_of c IndirectAddress.de = register16_of c Register16.de
indirect_of c IndirectAddress.hl_increment = register16_of c Register16.hl
indirect_of c IndirectAddress.hl_decrement = register16_of c Register16.hl

unfoldable pub indirect_address : IndirectAddress → M ℕ
indirect_address address = do c ← cpu; pure (indirect_of c address)

unfoldable pub update_hl_after_indirect : IndirectAddress → M Unit
update_hl_after_indirect IndirectAddress.hl_increment = do
  current ← register16 Register16.hl
  set_register16 Register16.hl (u16_add current 1)
update_hl_after_indirect IndirectAddress.hl_decrement = do
  current ← register16 Register16.hl
  set_register16 Register16.hl (u16_sub current 1)
update_hl_after_indirect _ = pure tt

unfoldable pub condition_of : Flags → Condition → Bool
condition_of flags Condition.not_zero = not (zero_flag flags)
condition_of flags Condition.zero = zero_flag flags
condition_of flags Condition.not_carry = not (carry_flag flags)
condition_of flags Condition.carry = carry_flag flags

unfoldable pub condition_holds : Condition → M Bool
condition_holds condition = do c ← cpu; pure (condition_of c.flags condition)

-- `condition.is_none_or(|predicate| condition_holds(executor, predicate))`
unfoldable pub taken_if : Option Condition → M Bool
taken_if none = pure true
taken_if (some condition) = condition_holds condition

module _ (sha256 : List ℕ → List ℕ) where
  unfoldable pub read_operand : Operand8 → ImmediateBytes → M ℕ
  read_operand (Operand8.register register) immediate = register8 register
  read_operand Operand8.immediate immediate = immediate_byte immediate
  read_operand Operand8.indirect_hl immediate = do
    address ← register16 Register16.hl
    read_data sha256 address

  unfoldable pub write_operand : Operand8 → ℕ → M Unit
  write_operand (Operand8.register register) value = set_register8 register value
  write_operand Operand8.immediate value = fail StepError.instruction_metadata_invariant
  write_operand Operand8.indirect_hl value = do
    address ← register16 Register16.hl
    write_data sha256 address value

  unfoldable pub transfer_accumulator : ℕ → TransferDirection → M Unit
  transfer_accumulator address TransferDirection.into_accumulator = do
    value ← read_data sha256 address
    set_accumulator value
  transfer_accumulator address TransferDirection.from_accumulator = do
    c ← cpu
    write_data sha256 address c.registers.a

  unfoldable pub store_sp_absolute : ℕ → M Unit
  store_sp_absolute address = do
    c ← cpu
    write_data sha256 address (low_byte c.sp)
    write_data sha256 (u16_add address 1) (high_byte c.sp)

  unfoldable pub push_word : ℕ → M Unit
  push_word value = do
    c ← cpu
    write_data sha256 (u16_sub c.sp 1) (high_byte value)
    set_sp (u16_sub c.sp 1)
    write_data sha256 (u16_sub (u16_sub c.sp 1) 1) (low_byte value)
    set_sp (u16_sub (u16_sub c.sp 1) 1)

  unfoldable pub pop_word : M ℕ
  pop_word = do
    c ← cpu
    low ← read_data sha256 c.sp
    high ← read_data sha256 (u16_add c.sp 1)
    set_sp (u16_add (u16_add c.sp 1) 1)
    pure (word high low)
