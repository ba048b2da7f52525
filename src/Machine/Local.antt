-- ===== src/Machine/Local.antt =====
-- The instruction classes that do not use the data bus (crates/zksm83-core/src/execute.rs).
use zksm.Prelude.{
  Bool, true, false, not, ◌==◌, complement, u16_add, u16_sub, u16_add_signed, if◌then◌else◌,
}
use zksm.Isa.Types.{Register16, Operation}
use zksm.Flags.{from_bits, zero_flag, carry_flag}
use zksm.Alu
use zksm.Machine.State.{ImeState, RunState}
use zksm.Machine.Bus.{StepError}
use zksm.Machine.Executor.{
  M, pure, fail, ◌>>=◌, ◌>>◌, cpu, set_flags, set_pc, set_sp, set_ime, set_run_state,
}
use zksm.Machine.Operands.{
  ImmediateBytes, immediate_byte, immediate_word, register16, set_register16, set_accumulator,
  taken_if,
}

-- `return Err(StepError::InstructionMetadataInvariant)`
unfoldable pub invariant_error : M Bool
invariant_error = fail StepError.instruction_metadata_invariant

unfoldable pub execute_control : Operation → M Bool
execute_control Operation.nop = pure false
execute_control Operation.decimal_adjust = do
  c ← cpu
  set_accumulator (Alu.decimal_adjust c.registers.a c.flags).value
  set_flags (Alu.decimal_adjust c.registers.a c.flags).flags
  pure false
execute_control Operation.complement_accumulator = do
  c ← cpu
  set_accumulator (complement c.registers.a)
  set_flags (from_bits (zero_flag c.flags) true true (carry_flag c.flags))
  pure false
execute_control Operation.set_carry = do
  c ← cpu
  set_flags (from_bits (zero_flag c.flags) false false true)
  pure false
execute_control Operation.complement_carry = do
  c ← cpu
  set_flags (from_bits (zero_flag c.flags) false false (not (carry_flag c.flags)))
  pure false
execute_control _ = invariant_error

unfoldable pub execute_alu16 : Operation → ImmediateBytes → M Bool
execute_alu16 (Operation.add_hl source) immediate = do
  left ← register16 Register16.hl
  right ← register16 source
  c ← cpu
  set_register16 Register16.hl (Alu.add_hl left right c.flags).value
  set_flags (Alu.add_hl left right c.flags).flags
  pure false
execute_alu16 (Operation.increment16 target) immediate = do
  value ← register16 target
  set_register16 target (u16_add value 1)
  pure false
execute_alu16 (Operation.decrement16 target) immediate = do
  value ← register16 target
  set_register16 target (u16_sub value 1)
  pure false
execute_alu16 Operation.add_sp_offset immediate = do
  c ← cpu
  offset ← immediate_byte immediate
  set_sp (Alu.add_signed_to_sp c.sp offset).value
  set_flags (Alu.add_signed_to_sp c.sp offset).flags
  pure false
execute_alu16 _ immediate = invariant_error

-- The jumps that are taken or not.
unfoldable pub relative_target : Bool → ImmediateBytes → M Unit
relative_target false immediate = pure tt
relative_target true immediate = do
  offset ← immediate_byte immediate
  c ← cpu
  set_pc (u16_add_signed c.pc offset)

unfoldable pub absolute_target : Bool → ImmediateBytes → M Unit
absolute_target false immediate = pure tt
absolute_target true immediate = do target ← immediate_word immediate; set_pc target

unfoldable pub execute_jump : Operation → ImmediateBytes → M Bool
execute_jump (Operation.relative_jump condition) immediate = do
  taken ← taken_if condition
  relative_target taken immediate
  pure taken
execute_jump Operation.jump_hl immediate = do
  target ← register16 Register16.hl
  set_pc target
  pure true
execute_jump (Operation.jump condition) immediate = do
  taken ← taken_if condition
  absolute_target taken immediate
  pure taken
execute_jump _ immediate = invariant_error

unfoldable pub execute_interrupt : Operation → M Bool
execute_interrupt Operation.disable_interrupts = do set_ime ImeState.disabled; pure false
execute_interrupt Operation.enable_interrupts = do set_ime ImeState.enable_pending; pure false
execute_interrupt _ = invariant_error

unfoldable pub execute_low_power : Operation → ImmediateBytes → M Bool
execute_low_power Operation.halt immediate = do set_run_state RunState.halted; pure false
execute_low_power Operation.stop immediate = do
  padding ← immediate_byte immediate
  (if not (padding == 0)
      then fail (StepError.invalid_stop_padding padding)
      else set_run_state RunState.stopped)
  pure false
execute_low_power _ immediate = invariant_error
