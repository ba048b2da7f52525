-- ===== src/Machine/Execute.antt =====
-- The semantics of the instructions by class (crates/zksm83-core/src/execute.rs).
use zksm.Prelude.{ℕ, Bool, true, false, ◌==◌, List, bit_and, bit_or, complement, if◌then◌else◌}
use zksm.Isa.Types.{
  Register16, Operation, AluOperation, CbOperation, Operand8, InstructionClass, DecodedInstruction,
}
use zksm.Flags.{from_bits, carry_flag}
use zksm.Alu
use zksm.Machine.State.{ImeState}
use zksm.Machine.Bus.{StepError}
use zksm.Machine.Executor.{
  M, pure, fail, require_some, ◌>>=◌, ◌>>◌, cpu, set_flags, set_pc, set_sp, set_ime,
}
use zksm.Machine.Operands.{
  ImmediateBytes, immediate_byte, immediate_word, register16, set_register16, set_accumulator,
  stack_register, set_stack_register, bit_mask, indirect_address, update_hl_after_indirect,
  taken_if, read_operand, write_operand, transfer_accumulator, store_sp_absolute, push_word,
  pop_word,
}
use zksm.Machine.Local.{
  invariant_error, execute_control, execute_alu16, execute_jump, execute_interrupt,
  execute_low_power,
}

-- `alu_operation != AluOperation::Compare`
abbrev pub is_compare : AluOperation → Bool
is_compare AluOperation.compare = true
is_compare _ = false

module _ (sha256 : List ℕ → List ℕ) where
  unfoldable pub execute_load : Operation → ImmediateBytes → M Bool
  execute_load Operation.store_sp_absolute immediate = do
    address ← immediate_word immediate
    store_sp_absolute sha256 address
    pure false
  execute_load (Operation.load16_immediate register) immediate = do
    value ← immediate_word immediate
    set_register16 register value
    pure false
  execute_load (Operation.load_accumulator_indirect address direction) immediate = do
    target ← indirect_address address
    transfer_accumulator sha256 target direction
    update_hl_after_indirect address
    pure false
  execute_load (Operation.load8_immediate target) immediate = do
    value ← immediate_byte immediate
    write_operand sha256 target value
    pure false
  execute_load (Operation.load8 destination source) immediate = do
    value ← read_operand sha256 source immediate
    write_operand sha256 destination value
    pure false
  execute_load (Operation.high_immediate_load direction) immediate = do
    offset ← immediate_byte immediate
    transfer_accumulator sha256 (bit_or 0xff00 offset) direction
    pure false
  execute_load Operation.load_hl_sp_offset immediate = do
    c ← cpu
    offset ← immediate_byte immediate
    set_register16 Register16.hl (Alu.add_signed_to_sp c.sp offset).value
    set_flags (Alu.add_signed_to_sp c.sp offset).flags
    pure false
  execute_load Operation.load_sp_hl immediate = do
    value ← register16 Register16.hl
    set_sp value
    pure false
  execute_load (Operation.high_c_load direction) immediate = do
    c ← cpu
    transfer_accumulator sha256 (bit_or 0xff00 c.registers.c) direction
    pure false
  execute_load (Operation.absolute_accumulator_load direction) immediate = do
    address ← immediate_word immediate
    transfer_accumulator sha256 address direction
    pure false
  execute_load _ immediate = invariant_error

  unfoldable pub execute_alu8 : Operation → ImmediateBytes → M Bool
  execute_alu8 (Operation.increment8 target) immediate = do
    before ← read_operand sha256 target immediate
    c ← cpu
    write_operand sha256 target (Alu.increment before c.flags).value
    set_flags (Alu.increment before c.flags).flags
    pure false
  execute_alu8 (Operation.decrement8 target) immediate = do
    before ← read_operand sha256 target immediate
    c ← cpu
    write_operand sha256 target (Alu.decrement before c.flags).value
    set_flags (Alu.decrement before c.flags).flags
    pure false
  execute_alu8 (Operation.alu8 operation source) immediate = do
    operand ← read_operand sha256 source immediate
    c ← cpu
    (if is_compare operation
        then pure tt
        else set_accumulator (Alu.apply_alu operation c.registers.a operand c.flags).value)
    set_flags (Alu.apply_alu operation c.registers.a operand c.flags).flags
    pure false
  execute_alu8 _ immediate = invariant_error

  unfoldable pub execute_rotate : Operation → ImmediateBytes → M Bool
  execute_rotate (Operation.rotate_accumulator rotate) immediate = do
    c ← cpu
    result ←
        require_some StepError.instruction_metadata_invariant
          (Alu.rotate_shift rotate c.registers.a (carry_flag c.flags) false)
    set_accumulator result.value
    set_flags result.flags
    pure false
  execute_rotate (Operation.cb rotate target) immediate = do
    before ← read_operand sha256 target immediate
    c ← cpu
    result ←
        require_some StepError.instruction_metadata_invariant
          (Alu.rotate_shift rotate before (carry_flag c.flags) true)
    write_operand sha256 target result.value
    set_flags result.flags
    pure false
  execute_rotate _ immediate = invariant_error

  -- The `match` of `execute_bit`, on the value read.
  unfoldable pub execute_bit_of : CbOperation → Operand8 → ℕ → M Bool
  execute_bit_of (CbOperation.test_bit bit) target value = do
    mask ← bit_mask bit
    c ← cpu
    set_flags (from_bits (bit_and value mask == 0) false true (carry_flag c.flags))
    pure false
  execute_bit_of (CbOperation.reset_bit bit) target value = do
    mask ← bit_mask bit
    write_operand sha256 target (bit_and value (complement mask))
    pure false
  execute_bit_of (CbOperation.set_bit bit) target value = do
    mask ← bit_mask bit
    write_operand sha256 target (bit_or value mask)
    pure false
  execute_bit_of _ target value = invariant_error

  unfoldable pub execute_bit : Operation → ImmediateBytes → M Bool
  execute_bit (Operation.cb operation target) immediate = do
    value ← read_operand sha256 target immediate
    execute_bit_of operation target value
  execute_bit _ immediate = invariant_error

  unfoldable pub return_if : Bool → M Unit
  return_if false = pure tt
  return_if true = do target ← pop_word sha256; set_pc target

  unfoldable pub call_if : Bool → ImmediateBytes → M Unit
  call_if false immediate = pure tt
  call_if true immediate = do
    c ← cpu
    push_word sha256 c.pc
    target ← immediate_word immediate
    set_pc target

  unfoldable pub execute_call_return : Operation → ImmediateBytes → M Bool
  execute_call_return (Operation.return condition) immediate = do
    taken ← taken_if condition
    return_if taken
    pure taken
  execute_call_return Operation.return_from_interrupt immediate = do
    target ← pop_word sha256
    set_pc target
    set_ime ImeState.enabled
    pure true
  execute_call_return (Operation.call condition) immediate = do
    taken ← taken_if condition
    call_if taken immediate
    pure taken
  execute_call_return (Operation.restart vector) immediate = do
    c ← cpu
    push_word sha256 c.pc
    set_pc vector
    pure true
  execute_call_return _ immediate = invariant_error

  unfoldable pub execute_stack : Operation → M Bool
  execute_stack (Operation.pop register) = do
    value ← pop_word sha256
    set_stack_register register value
    pure false
  execute_stack (Operation.push register) = do
    value ← stack_register register
    push_word sha256 value
    pure false
  execute_stack _ = invariant_error

  unfoldable pub execute_class : InstructionClass → Operation → ImmediateBytes → M Bool
  execute_class InstructionClass.control operation immediate = execute_control operation
  execute_class InstructionClass.load operation immediate = execute_load operation immediate
  execute_class InstructionClass.alu8 operation immediate = execute_alu8 operation immediate
  execute_class InstructionClass.alu16 operation immediate = execute_alu16 operation immediate
  execute_class InstructionClass.rotate_shift operation immediate =
      execute_rotate operation immediate
  execute_class InstructionClass.bit operation immediate = execute_bit operation immediate
  execute_class InstructionClass.jump operation immediate = execute_jump operation immediate
  execute_class InstructionClass.call_return operation immediate =
      execute_call_return operation immediate
  execute_class InstructionClass.stack operation immediate = execute_stack operation
  execute_class InstructionClass.interrupt operation immediate = execute_interrupt operation
  execute_class InstructionClass.low_power operation immediate =
      execute_low_power operation immediate
  execute_class InstructionClass.prefix operation immediate = fail StepError.undispatched_cb_prefix

  unfoldable pub execute : DecodedInstruction → ImmediateBytes → M Bool
  execute instruction immediate = execute_class instruction.class instruction.operation immediate
