-- ===== src/Machine/Laws/Instructions.antt =====
-- The instructions (crates/zksm83-core/src/execute.rs) under the laws.
use zksm.Prelude.{ℕ, List, Bool, true, false}
use zksm.Isa.Types.{Operation, CbOperation, Operand8, InstructionClass, DecodedInstruction}
use zksm.Machine.Executor.{Executor}
use zksm.Machine.Operands.{ImmediateBytes}
use zksm.Machine.Local.{
  invariant_error, execute_control, execute_alu16, relative_target, absolute_target, execute_jump,
  execute_interrupt, execute_low_power,
}
use zksm.Machine.Execute.{
  execute_load, execute_alu8, execute_rotate, execute_bit_of, execute_bit, return_if, call_if,
  execute_call_return, execute_stack, execute_class, execute,
}
use zksm.Machine.Triple.{Keeps, Triple-bind_kept, Keeps-pure, Keeps-fail, keeps_rules}
use zksm.Machine.Laws.{Phase, idle, Laws}
use zksm.Machine.Laws.Operands

module _ {sha256 : List ℕ → List ℕ} {f : Executor → Executor} {H : Phase → Executor → Type 0}
    (laws : Laws sha256 f H) where
  invariant_error-Keeps : Keeps f (H idle) invariant_error
  unfolding invariant_error
  invariant_error-Keeps = Keeps-fail _

  execute_control-Keeps : (o : Operation) → Keeps f (H idle) (execute_control o)
  unfolding execute_control
  execute_control-Keeps Operation.nop = Keeps-pure _
  execute_control-Keeps _ =
      search
        (
          keeps_rules,
          invariant_error-Keeps,
          laws.get_cpu,
          laws.put_flags,
          Operands.set_accumulator-Keeps laws,
        )
        depth 9

  execute_alu16-Keeps : (o : Operation) (i : ImmediateBytes) → Keeps f (H idle) (execute_alu16 o i)
  unfolding execute_alu16
  execute_alu16-Keeps Operation.nop i = invariant_error-Keeps
  execute_alu16-Keeps _ i =
      search
        (
          keeps_rules,
          invariant_error-Keeps,
          laws.get_cpu,
          laws.put_flags,
          laws.put_sp,
          Operands.register16-Keeps laws,
          Operands.set_register16-Keeps laws,
          Operands.immediate_byte-Keeps laws,
        )
        depth 9

  relative_target-Keeps : (b : Bool) (i : ImmediateBytes) → Keeps f (H idle) (relative_target b i)
  unfolding relative_target
  relative_target-Keeps false i = Keeps-pure _
  relative_target-Keeps true i =
      search (keeps_rules, laws.get_cpu, laws.put_pc, Operands.immediate_byte-Keeps laws)

  absolute_target-Keeps : (b : Bool) (i : ImmediateBytes) → Keeps f (H idle) (absolute_target b i)
  unfolding absolute_target
  absolute_target-Keeps false i = Keeps-pure _
  absolute_target-Keeps true i =
      search (keeps_rules, laws.put_pc, Operands.immediate_word-Keeps laws)

  execute_jump-Keeps : (o : Operation) (i : ImmediateBytes) → Keeps f (H idle) (execute_jump o i)
  unfolding execute_jump
  execute_jump-Keeps Operation.nop i = invariant_error-Keeps
  execute_jump-Keeps _ i = search (
    keeps_rules,
    invariant_error-Keeps,
    laws.put_pc,
    relative_target-Keeps,
    absolute_target-Keeps,
    Operands.taken_if-Keeps laws,
    Operands.register16-Keeps laws,
  )

  execute_interrupt-Keeps : (o : Operation) → Keeps f (H idle) (execute_interrupt o)
  unfolding execute_interrupt
  execute_interrupt-Keeps Operation.nop = invariant_error-Keeps
  execute_interrupt-Keeps _ = search (keeps_rules, invariant_error-Keeps, laws.put_ime)

  execute_low_power-Keeps :
      (o : Operation) (i : ImmediateBytes) → Keeps f (H idle) (execute_low_power o i)
  unfolding execute_low_power
  execute_low_power-Keeps Operation.nop i = invariant_error-Keeps
  execute_low_power-Keeps _ i =
      search
        (keeps_rules, invariant_error-Keeps, laws.put_run_state, Operands.immediate_byte-Keeps laws)

  execute_load-Keeps :
      (o : Operation) (i : ImmediateBytes) → Keeps f (H idle) (execute_load sha256 o i)
  unfolding execute_load
  execute_load-Keeps Operation.nop i = invariant_error-Keeps
  execute_load-Keeps _ i =
      search
        (
          keeps_rules,
          invariant_error-Keeps,
          laws.get_cpu,
          laws.put_flags,
          laws.put_sp,
          Operands.immediate_byte-Keeps laws,
          Operands.immediate_word-Keeps laws,
          Operands.register16-Keeps laws,
          Operands.set_register16-Keeps laws,
          Operands.store_sp_absolute-Keeps laws,
          Operands.indirect_address-Keeps laws,
          Operands.transfer_accumulator-Keeps laws,
          Operands.update_hl_after_indirect-Keeps laws,
          Operands.read_operand-Keeps laws,
          Operands.write_operand-Keeps laws,
        )
        depth 8

  execute_alu8-Keeps :
      (o : Operation) (i : ImmediateBytes) → Keeps f (H idle) (execute_alu8 sha256 o i)
  unfolding execute_alu8
  execute_alu8-Keeps Operation.nop i = invariant_error-Keeps
  execute_alu8-Keeps _ i =
      search
        (
          keeps_rules,
          invariant_error-Keeps,
          laws.get_cpu,
          laws.put_flags,
          Operands.set_accumulator-Keeps laws,
          Operands.read_operand-Keeps laws,
          Operands.write_operand-Keeps laws,
        )
        depth 8

  execute_rotate-Keeps :
      (o : Operation) (i : ImmediateBytes) → Keeps f (H idle) (execute_rotate sha256 o i)
  unfolding execute_rotate
  execute_rotate-Keeps Operation.nop i = invariant_error-Keeps
  execute_rotate-Keeps _ i =
      search
        (
          keeps_rules,
          invariant_error-Keeps,
          laws.get_cpu,
          laws.put_flags,
          Operands.set_accumulator-Keeps laws,
          Operands.read_operand-Keeps laws,
          Operands.write_operand-Keeps laws,
        )
        depth 8

  execute_bit_of-Keeps :
      (o : CbOperation) (t : Operand8) (v : ℕ) → Keeps f (H idle) (execute_bit_of sha256 o t v)
  unfolding execute_bit_of
  execute_bit_of-Keeps CbOperation.swap_nibbles t v = invariant_error-Keeps
  execute_bit_of-Keeps _ t v =
      search
        (
          keeps_rules,
          invariant_error-Keeps,
          laws.get_cpu,
          laws.put_flags,
          Operands.bit_mask-Keeps laws,
          Operands.write_operand-Keeps laws,
        )
        depth 8

  execute_bit-Keeps :
      (o : Operation) (i : ImmediateBytes) → Keeps f (H idle) (execute_bit sha256 o i)
  unfolding execute_bit
  execute_bit-Keeps Operation.nop i = invariant_error-Keeps
  execute_bit-Keeps _ i =
      search
        (keeps_rules, invariant_error-Keeps, execute_bit_of-Keeps, Operands.read_operand-Keeps laws)

  return_if-Keeps : (b : Bool) → Keeps f (H idle) (return_if sha256 b)
  unfolding return_if
  return_if-Keeps false = Keeps-pure _
  return_if-Keeps true = search (keeps_rules, laws.put_pc, Operands.pop_word-Keeps laws)

  call_if-Keeps : (b : Bool) (i : ImmediateBytes) → Keeps f (H idle) (call_if sha256 b i)
  unfolding call_if
  call_if-Keeps false i = Keeps-pure _
  call_if-Keeps true i = search (
    keeps_rules,
    laws.get_cpu,
    laws.put_pc,
    Operands.push_word-Keeps laws,
    Operands.immediate_word-Keeps laws,
  )

  execute_call_return-Keeps :
      (o : Operation) (i : ImmediateBytes) → Keeps f (H idle) (execute_call_return sha256 o i)
  unfolding execute_call_return
  execute_call_return-Keeps Operation.nop i = invariant_error-Keeps
  execute_call_return-Keeps Operation.return_from_interrupt i =
      Triple-bind_kept _ _ (Operands.pop_word-Keeps laws)
        λ target. search (keeps_rules, laws.put_pc, laws.put_ime)
  execute_call_return-Keeps _ i = search (
    keeps_rules,
    invariant_error-Keeps,
    laws.get_cpu,
    laws.put_pc,
    return_if-Keeps,
    call_if-Keeps,
    Operands.taken_if-Keeps laws,
    Operands.push_word-Keeps laws,
  )

  execute_stack-Keeps : (o : Operation) → Keeps f (H idle) (execute_stack sha256 o)
  unfolding execute_stack
  execute_stack-Keeps Operation.nop = invariant_error-Keeps
  execute_stack-Keeps (Operation.pop r) =
      Triple-bind_kept _ _ (Operands.pop_word-Keeps laws)
        λ value. search (keeps_rules, Operands.set_stack_register-Keeps laws)
  execute_stack-Keeps _ = search (
    keeps_rules,
    invariant_error-Keeps,
    Operands.push_word-Keeps laws,
    Operands.stack_register-Keeps laws,
  )

  execute_class-Keeps :
      (c : InstructionClass) (o : Operation) (i : ImmediateBytes)
      → Keeps f (H idle) (execute_class sha256 c o i)
  unfolding execute_class
  execute_class-Keeps InstructionClass.prefix o i = Keeps-fail _
  execute_class-Keeps _ o i = search (
    execute_control-Keeps, execute_load-Keeps, execute_alu8-Keeps, execute_alu16-Keeps,
    execute_rotate-Keeps, execute_bit-Keeps, execute_jump-Keeps, execute_call_return-Keeps,
    execute_stack-Keeps, execute_interrupt-Keeps, execute_low_power-Keeps,
  )

  pub execute-Keeps :
      (d : DecodedInstruction) (i : ImmediateBytes) → Keeps f (H idle) (execute sha256 d i)
  unfolding execute
  execute-Keeps d i = execute_class-Keeps d.class d.operation i
