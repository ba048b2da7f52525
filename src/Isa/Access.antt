-- ===== src/Isa/Access.antt =====
-- The CPU components that an instruction reads and writes, as masks
-- (crates/zksm83-isa/src/metadata.rs, and `StateComponent` of types.rs).
use mathlib.Core.Option.{Option, none, some}
use zksm.Prelude.{ℕ, bit_or}
use zksm.Isa.Types.{
  Register8, Register16, StackRegister16, Operand8, IndirectAddress, TransferDirection,
  AluOperation, CbOperation, Operation, StateAccess,
}

pub data StateComponent : Type 0 where
  a b c d e h l f pc sp ime run_state m_cycles : StateComponent

unfoldable pub mask : StateComponent → ℕ
mask StateComponent.a = 1
mask StateComponent.b = 2
mask StateComponent.c = 4
mask StateComponent.d = 8
mask StateComponent.e = 16
mask StateComponent.h = 32
mask StateComponent.l = 64
mask StateComponent.f = 128
mask StateComponent.pc = 256
mask StateComponent.sp = 512
mask StateComponent.ime = 1024
mask StateComponent.run_state = 2048
mask StateComponent.m_cycles = 4096

unfoldable pub register_mask : Register16 → ℕ
unfolding mask
register_mask Register16.bc = bit_or (mask StateComponent.b) (mask StateComponent.c)
register_mask Register16.de = bit_or (mask StateComponent.d) (mask StateComponent.e)
register_mask Register16.hl = bit_or (mask StateComponent.h) (mask StateComponent.l)
register_mask Register16.sp = mask StateComponent.sp

unfoldable pub stack_register_mask : StackRegister16 → ℕ
unfolding register_mask
stack_register_mask StackRegister16.bc = register_mask Register16.bc
stack_register_mask StackRegister16.de = register_mask Register16.de
stack_register_mask StackRegister16.hl = register_mask Register16.hl
stack_register_mask StackRegister16.af = bit_or (mask StateComponent.a) (mask StateComponent.f)

unfoldable pub register_component : Register8 → StateComponent
register_component Register8.a = StateComponent.a
register_component Register8.b = StateComponent.b
register_component Register8.c = StateComponent.c
register_component Register8.d = StateComponent.d
register_component Register8.e = StateComponent.e
register_component Register8.h = StateComponent.h
register_component Register8.l = StateComponent.l

-- The masks that `add_operand_read` and `add_operand_write` add.
unfoldable pub operand_read : Operand8 → ℕ
unfolding register_component register_mask
operand_read (Operand8.register r) = mask (register_component r)
operand_read Operand8.immediate = 0
operand_read Operand8.indirect_hl = register_mask Register16.hl

unfoldable pub operand_write : Operand8 → ℕ
unfolding register_component mask
operand_write (Operand8.register r) = mask (register_component r)
operand_write Operand8.immediate = 0
operand_write Operand8.indirect_hl = 0

unfoldable pub indirect_read : IndirectAddress → ℕ
unfolding register_mask
indirect_read IndirectAddress.bc = register_mask Register16.bc
indirect_read IndirectAddress.de = register_mask Register16.de
indirect_read IndirectAddress.hl_increment = register_mask Register16.hl
indirect_read IndirectAddress.hl_decrement = register_mask Register16.hl

abbrev no_access : StateAccess
no_access = record { reads = 0; writes = 0 }

abbrev reading : ℕ → StateAccess
reading r = record { reads = r; writes = 0 }

abbrev writing : ℕ → StateAccess
writing w = record { reads = 0; writes = w }

infixl 60 ◌&◌
abbrev ◌&◌ : StateAccess → StateAccess → StateAccess
p & q = record { reads = bit_or p.reads q.reads; writes = bit_or p.writes q.writes }

unfoldable pub transfer_access : TransferDirection → StateAccess
unfolding mask
transfer_access TransferDirection.into_accumulator = writing (mask StateComponent.a)
transfer_access TransferDirection.from_accumulator = reading (mask StateComponent.a)

unfoldable pub destination_access : Operand8 → StateAccess
unfolding operand_write register_mask
destination_access Operand8.indirect_hl = reading (register_mask Register16.hl)
destination_access (Operand8.register r) = writing (operand_write (Operand8.register r))
destination_access Operand8.immediate = no_access

abbrev both : ℕ → StateAccess
both m = record { reads = m; writes = m }

abbrev hl_update : IndirectAddress → StateAccess
hl_update IndirectAddress.bc = no_access
hl_update IndirectAddress.de = no_access
hl_update IndirectAddress.hl_increment = writing (register_mask Register16.hl)
hl_update IndirectAddress.hl_decrement = writing (register_mask Register16.hl)

abbrev condition_access {ℓ} : {A : Type ℓ} → Option A → StateAccess
condition_access none = no_access
condition_access (some _) = reading (mask StateComponent.f)

abbrev alu_write : AluOperation → StateAccess
alu_write AluOperation.compare = no_access
alu_write _ = writing (mask StateComponent.a)

abbrev cb_write : CbOperation → Operand8 → StateAccess
cb_write (CbOperation.test_bit _) operand = no_access
cb_write _ operand = writing (operand_write operand)

-- What `add_operation_access` adds to the two masks.
unfoldable pub operation_access : Operation → StateAccess
unfolding operand_read operand_write destination_access transfer_access indirect_read
    stack_register_mask
operation_access Operation.store_sp_absolute = reading (register_mask Register16.sp)
operation_access Operation.stop = writing (mask StateComponent.run_state)
operation_access Operation.halt = writing (mask StateComponent.run_state)
operation_access (Operation.relative_jump condition) = condition_access condition
operation_access (Operation.return condition) =
    condition_access condition & both (mask StateComponent.sp)
operation_access (Operation.jump condition) = condition_access condition
operation_access (Operation.call condition) =
    condition_access condition & both (mask StateComponent.sp)
operation_access (Operation.load16_immediate r) = writing (register_mask r)
operation_access (Operation.increment16 r) = both (register_mask r)
operation_access (Operation.decrement16 r) = both (register_mask r)
operation_access (Operation.add_hl r) =
    both (register_mask Register16.hl) & reading (register_mask r)
operation_access (Operation.load_accumulator_indirect address direction) =
    reading (indirect_read address) & transfer_access direction & hl_update address
operation_access (Operation.increment8 operand) =
    reading (operand_read operand) & writing (operand_write operand)
operation_access (Operation.decrement8 operand) =
    reading (operand_read operand) & writing (operand_write operand)
operation_access (Operation.load8_immediate operand) = destination_access operand
operation_access (Operation.rotate_accumulator _) = both (mask StateComponent.a)
operation_access Operation.decimal_adjust = both (mask StateComponent.a)
operation_access Operation.complement_accumulator = both (mask StateComponent.a)
operation_access (Operation.load8 destination source) =
    reading (operand_read source) & destination_access destination
operation_access (Operation.alu8 alu operand) =
    reading (mask StateComponent.a) & reading (operand_read operand) & alu_write alu
operation_access (Operation.high_immediate_load direction) = transfer_access direction
operation_access (Operation.high_c_load direction) =
    reading (mask StateComponent.c) & transfer_access direction
operation_access (Operation.absolute_accumulator_load direction) = transfer_access direction
operation_access Operation.add_sp_offset = both (register_mask Register16.sp)
operation_access Operation.load_hl_sp_offset =
    reading (register_mask Register16.sp) & writing (register_mask Register16.hl)
operation_access (Operation.pop r) = both (mask StateComponent.sp) & writing (stack_register_mask r)
operation_access Operation.return_from_interrupt = both (mask StateComponent.sp)
operation_access Operation.jump_hl = reading (register_mask Register16.hl)
operation_access Operation.load_sp_hl =
    reading (register_mask Register16.hl) & writing (register_mask Register16.sp)
operation_access Operation.disable_interrupts = writing (mask StateComponent.ime)
operation_access Operation.enable_interrupts = writing (mask StateComponent.ime)
operation_access (Operation.push r) =
    reading (stack_register_mask r) & both (mask StateComponent.sp)
operation_access (Operation.restart _) = both (mask StateComponent.sp)
operation_access (Operation.cb rotate operand) =
    reading (operand_read operand) & cb_write rotate operand
operation_access Operation.nop = no_access
operation_access Operation.set_carry = no_access
operation_access Operation.complement_carry = no_access
operation_access Operation.prefix_cb = no_access
