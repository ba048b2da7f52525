-- ===== src/Machine/Laws/Operands.antt =====
-- Registers, operands and the stack (crates/zksm83-core/src/execute.rs) under the laws.
use zksm.Prelude.{ℕ, List, Option, none, some}
use zksm.Isa.Types.{
  Register8, Register16, StackRegister16, Operand8, IndirectAddress, TransferDirection, Condition,
}
use zksm.Machine.Executor.{Executor}
use zksm.Machine.Operands.{
  ImmediateBytes, first_immediate, second_immediate, push_immediate, immediate_byte, immediate_word,
  register8, set_register8, register16, set_register16, set_accumulator, stack_register,
  set_stack_register, bit_mask, indirect_address, update_hl_after_indirect, condition_holds,
  taken_if, read_operand, write_operand, transfer_accumulator, store_sp_absolute, push_word,
  pop_word,
}
use zksm.Machine.Triple.{Keeps, Keeps-pure, Keeps-fail, keeps_rules}
use zksm.Machine.Laws.{Phase, idle, Laws}
use zksm.Machine.Laws.Data.{read_data-Keeps, write_data-Keeps}

module _ {sha256 : List ℕ → List ℕ} {f : Executor → Executor} {H : Phase → Executor → Type 0}
    (laws : Laws sha256 f H) where
  pub immediate_byte-Keeps : (i : ImmediateBytes) → Keeps f (H idle) (immediate_byte i)
  unfolding immediate_byte
  immediate_byte-Keeps i = search keeps_rules

  pub immediate_word-Keeps : (i : ImmediateBytes) → Keeps f (H idle) (immediate_word i)
  unfolding immediate_word
  immediate_word-Keeps i = search keeps_rules

  second_immediate-Keeps :
      (o : Option ℕ) (i : ImmediateBytes) (v : ℕ) → Keeps f (H idle) (second_immediate o i v)
  second_immediate-Keeps none i v = Keeps-pure _
  second_immediate-Keeps (some _) i v = Keeps-fail _

  first_immediate-Keeps :
      (o : Option ℕ) (i : ImmediateBytes) (v : ℕ) → Keeps f (H idle) (first_immediate o i v)
  first_immediate-Keeps none i v = Keeps-pure _
  first_immediate-Keeps (some _) i v = second_immediate-Keeps i.second i v

  pub push_immediate-Keeps : (i : ImmediateBytes) (v : ℕ) → Keeps f (H idle) (push_immediate i v)
  unfolding push_immediate
  push_immediate-Keeps i v = first_immediate-Keeps i.first i v

  pub register8-Keeps : (r : Register8) → Keeps f (H idle) (register8 r)
  unfolding register8
  register8-Keeps r = search (keeps_rules, laws.get_cpu)

  pub set_register8-Keeps : (r : Register8) (v : ℕ) → Keeps f (H idle) (set_register8 r v)
  unfolding set_register8
  set_register8-Keeps r v = search (keeps_rules, laws.get_cpu, laws.put_registers)

  pub register16-Keeps : (r : Register16) → Keeps f (H idle) (register16 r)
  unfolding register16
  register16-Keeps r = search (keeps_rules, laws.get_cpu)

  pub set_register16-Keeps : (r : Register16) (v : ℕ) → Keeps f (H idle) (set_register16 r v)
  unfolding set_register16
  set_register16-Keeps Register16.bc v = search (keeps_rules, laws.get_cpu, laws.put_registers)
  set_register16-Keeps Register16.de v = search (keeps_rules, laws.get_cpu, laws.put_registers)
  set_register16-Keeps Register16.hl v = search (keeps_rules, laws.get_cpu, laws.put_registers)
  set_register16-Keeps Register16.sp v = laws.put_sp v

  pub set_accumulator-Keeps : (v : ℕ) → Keeps f (H idle) (set_accumulator v)
  unfolding set_accumulator
  set_accumulator-Keeps v = search (keeps_rules, laws.get_cpu, laws.put_registers)

  pub stack_register-Keeps : (r : StackRegister16) → Keeps f (H idle) (stack_register r)
  unfolding stack_register
  stack_register-Keeps r = search (keeps_rules, laws.get_cpu)

  pub set_stack_register-Keeps :
      (r : StackRegister16) (v : ℕ) → Keeps f (H idle) (set_stack_register r v)
  unfolding set_stack_register
  set_stack_register-Keeps StackRegister16.bc v = set_register16-Keeps _ v
  set_stack_register-Keeps StackRegister16.de v = set_register16-Keeps _ v
  set_stack_register-Keeps StackRegister16.hl v = set_register16-Keeps _ v
  set_stack_register-Keeps StackRegister16.af v =
      search (keeps_rules, set_accumulator-Keeps, laws.put_flags)

  pub bit_mask-Keeps : (b : ℕ) → Keeps f (H idle) (bit_mask b)
  unfolding bit_mask
  bit_mask-Keeps b = search keeps_rules

  pub indirect_address-Keeps : (a : IndirectAddress) → Keeps f (H idle) (indirect_address a)
  unfolding indirect_address
  indirect_address-Keeps a = search (keeps_rules, laws.get_cpu)

  ruleset register_rules = (keeps_rules, register16-Keeps, set_register16-Keeps)

  pub update_hl_after_indirect-Keeps :
      (a : IndirectAddress) → Keeps f (H idle) (update_hl_after_indirect a)
  unfolding update_hl_after_indirect
  update_hl_after_indirect-Keeps IndirectAddress.bc = Keeps-pure _
  update_hl_after_indirect-Keeps IndirectAddress.de = Keeps-pure _
  update_hl_after_indirect-Keeps IndirectAddress.hl_increment = search register_rules
  update_hl_after_indirect-Keeps IndirectAddress.hl_decrement = search register_rules

  condition_holds-Keeps : (c : Condition) → Keeps f (H idle) (condition_holds c)
  unfolding condition_holds
  condition_holds-Keeps c = search (keeps_rules, laws.get_cpu)

  pub taken_if-Keeps : (c : Option Condition) → Keeps f (H idle) (taken_if c)
  unfolding taken_if
  taken_if-Keeps none = Keeps-pure _
  taken_if-Keeps (some c) = condition_holds-Keeps c

  pub read_operand-Keeps :
      (o : Operand8) (i : ImmediateBytes) → Keeps f (H idle) (read_operand sha256 o i)
  unfolding read_operand
  read_operand-Keeps (Operand8.register r) i = register8-Keeps r
  read_operand-Keeps Operand8.immediate i = immediate_byte-Keeps i
  read_operand-Keeps Operand8.indirect_hl i = search (register_rules, read_data-Keeps laws)

  pub write_operand-Keeps : (o : Operand8) (v : ℕ) → Keeps f (H idle) (write_operand sha256 o v)
  unfolding write_operand
  write_operand-Keeps (Operand8.register r) v = set_register8-Keeps r v
  write_operand-Keeps Operand8.immediate v = Keeps-fail _
  write_operand-Keeps Operand8.indirect_hl v = search (register_rules, write_data-Keeps laws)

  pub transfer_accumulator-Keeps :
      (a : ℕ) (d : TransferDirection) → Keeps f (H idle) (transfer_accumulator sha256 a d)
  unfolding transfer_accumulator
  transfer_accumulator-Keeps a TransferDirection.into_accumulator =
      search (keeps_rules, read_data-Keeps laws, set_accumulator-Keeps)
  transfer_accumulator-Keeps a TransferDirection.from_accumulator =
      search (keeps_rules, laws.get_cpu, write_data-Keeps laws)

  pub store_sp_absolute-Keeps : (a : ℕ) → Keeps f (H idle) (store_sp_absolute sha256 a)
  unfolding store_sp_absolute
  store_sp_absolute-Keeps a = search (keeps_rules, laws.get_cpu, write_data-Keeps laws)

  pub push_word-Keeps : (v : ℕ) → Keeps f (H idle) (push_word sha256 v)
  unfolding push_word
  push_word-Keeps v = search (keeps_rules, laws.get_cpu, laws.put_sp, write_data-Keeps laws) depth 9

  pub pop_word-Keeps : Keeps f (H idle) (pop_word sha256)
  unfolding pop_word
  pop_word-Keeps = search (keeps_rules, laws.get_cpu, laws.put_sp, read_data-Keeps laws) depth 9
