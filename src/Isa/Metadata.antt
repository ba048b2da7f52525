-- ===== src/Isa/Metadata.antt =====
-- The class, flag effect, bus pattern and masks of an operation (crates/zksm83-isa/src/metadata.rs).
use mathlib.Core.Option.{Option, none, some}
use zksm.Prelude.{ℕ, ◌-◌, bit_or, Bool, true, false, ◌&&◌, if◌then◌else◌}
use zksm.Isa.Types.{
  StackRegister16, Operand8, TransferDirection, AluOperation, CbOperation, Operation,
  InstructionClass, FlagAction, FlagEffect, BusAccessPattern, InstructionEncoding, StateAccess,
  DecodedInstruction,
}
use zksm.Isa.Access.{StateComponent, mask, operation_access}

abbrev cb_class : CbOperation → InstructionClass
cb_class (CbOperation.test_bit _) = InstructionClass.bit
cb_class (CbOperation.reset_bit _) = InstructionClass.bit
cb_class (CbOperation.set_bit _) = InstructionClass.bit
cb_class _ = InstructionClass.rotate_shift

unfoldable pub class : Operation → InstructionClass
class Operation.nop = InstructionClass.control
class Operation.decimal_adjust = InstructionClass.control
class Operation.complement_accumulator = InstructionClass.control
class Operation.set_carry = InstructionClass.control
class Operation.complement_carry = InstructionClass.control
class Operation.store_sp_absolute = InstructionClass.load
class (Operation.load16_immediate _) = InstructionClass.load
class (Operation.load_accumulator_indirect _ _) = InstructionClass.load
class (Operation.load8_immediate _) = InstructionClass.load
class (Operation.load8 _ _) = InstructionClass.load
class (Operation.high_immediate_load _) = InstructionClass.load
class Operation.load_hl_sp_offset = InstructionClass.load
class Operation.load_sp_hl = InstructionClass.load
class (Operation.high_c_load _) = InstructionClass.load
class (Operation.absolute_accumulator_load _) = InstructionClass.load
class (Operation.increment8 _) = InstructionClass.alu8
class (Operation.decrement8 _) = InstructionClass.alu8
class (Operation.alu8 _ _) = InstructionClass.alu8
class (Operation.add_hl _) = InstructionClass.alu16
class (Operation.increment16 _) = InstructionClass.alu16
class (Operation.decrement16 _) = InstructionClass.alu16
class Operation.add_sp_offset = InstructionClass.alu16
class (Operation.rotate_accumulator _) = InstructionClass.rotate_shift
class (Operation.cb operation _) = cb_class operation
class (Operation.relative_jump _) = InstructionClass.jump
class Operation.jump_hl = InstructionClass.jump
class (Operation.jump _) = InstructionClass.jump
class (Operation.return _) = InstructionClass.call_return
class Operation.return_from_interrupt = InstructionClass.call_return
class (Operation.call _) = InstructionClass.call_return
class (Operation.restart _) = InstructionClass.call_return
class (Operation.pop _) = InstructionClass.stack
class (Operation.push _) = InstructionClass.stack
class Operation.disable_interrupts = InstructionClass.interrupt
class Operation.enable_interrupts = InstructionClass.interrupt
class Operation.stop = InstructionClass.low_power
class Operation.halt = InstructionClass.low_power
class Operation.prefix_cb = InstructionClass.prefix

-- The actions on Z, N, H and C, in that order.
abbrev effect : FlagAction → FlagAction → FlagAction → FlagAction → FlagEffect
effect z n h c = record { zero = z; subtract = n; half_carry = h; carry = c }

abbrev preserve_flags : FlagEffect
preserve_flags =
    effect FlagAction.preserve FlagAction.preserve FlagAction.preserve FlagAction.preserve

unfoldable pub alu_flags : AluOperation → FlagEffect
alu_flags AluOperation.and =
    effect FlagAction.derived FlagAction.clear FlagAction.set FlagAction.clear
alu_flags AluOperation.xor =
    effect FlagAction.derived FlagAction.clear FlagAction.clear FlagAction.clear
alu_flags AluOperation.or =
    effect FlagAction.derived FlagAction.clear FlagAction.clear FlagAction.clear
alu_flags AluOperation.add =
    effect FlagAction.derived FlagAction.clear FlagAction.derived FlagAction.derived
alu_flags AluOperation.add_carry =
    effect FlagAction.derived FlagAction.clear FlagAction.derived FlagAction.derived
alu_flags AluOperation.subtract =
    effect FlagAction.derived FlagAction.set FlagAction.derived FlagAction.derived
alu_flags AluOperation.subtract_carry =
    effect FlagAction.derived FlagAction.set FlagAction.derived FlagAction.derived
alu_flags AluOperation.compare =
    effect FlagAction.derived FlagAction.set FlagAction.derived FlagAction.derived

abbrev cb_flags : CbOperation → FlagEffect
cb_flags (CbOperation.test_bit _) =
    effect FlagAction.derived FlagAction.clear FlagAction.set FlagAction.preserve
cb_flags (CbOperation.reset_bit _) = preserve_flags
cb_flags (CbOperation.set_bit _) = preserve_flags
cb_flags _ = effect FlagAction.derived FlagAction.clear FlagAction.clear FlagAction.derived

unfoldable pub flag_effect : Operation → FlagEffect
unfolding alu_flags
flag_effect (Operation.increment8 _) =
    effect FlagAction.derived FlagAction.clear FlagAction.derived FlagAction.preserve
flag_effect (Operation.decrement8 _) =
    effect FlagAction.derived FlagAction.set FlagAction.derived FlagAction.preserve
flag_effect (Operation.add_hl _) =
    effect FlagAction.preserve FlagAction.clear FlagAction.derived FlagAction.derived
flag_effect Operation.add_sp_offset =
    effect FlagAction.clear FlagAction.clear FlagAction.derived FlagAction.derived
flag_effect Operation.load_hl_sp_offset =
    effect FlagAction.clear FlagAction.clear FlagAction.derived FlagAction.derived
flag_effect (Operation.rotate_accumulator _) =
    effect FlagAction.clear FlagAction.clear FlagAction.clear FlagAction.derived
flag_effect Operation.decimal_adjust =
    effect FlagAction.derived FlagAction.preserve FlagAction.clear FlagAction.derived
flag_effect Operation.complement_accumulator =
    effect FlagAction.preserve FlagAction.set FlagAction.set FlagAction.preserve
flag_effect Operation.set_carry =
    effect FlagAction.preserve FlagAction.clear FlagAction.clear FlagAction.set
flag_effect Operation.complement_carry =
    effect FlagAction.preserve FlagAction.clear FlagAction.clear FlagAction.derived
flag_effect (Operation.alu8 alu _) = alu_flags alu
flag_effect (Operation.cb operation _) = cb_flags operation
flag_effect (Operation.pop StackRegister16.af) =
    effect FlagAction.derived FlagAction.derived FlagAction.derived FlagAction.derived
flag_effect _ = preserve_flags

-- `flags != preserve_flags()`
abbrev is_preserve : FlagAction → Bool
is_preserve FlagAction.preserve = true
is_preserve _ = false

unfoldable pub preserves_flags : FlagEffect → Bool
preserves_flags f =
    is_preserve f.zero
    && (is_preserve f.subtract && (is_preserve f.half_carry && is_preserve f.carry))

-- Data reads and writes, then the additional ones of a taken branch.
pub record DataPattern : Type 0 where
  pub data_reads : ℕ
  pub data_writes : ℕ
  pub taken_data_reads : ℕ
  pub taken_data_writes : ℕ

abbrev pattern_of : ℕ → ℕ → ℕ → ℕ → DataPattern
pattern_of r w tr tw = record {
  data_reads = r;
  data_writes = w;
  taken_data_reads = tr;
  taken_data_writes = tw;
}

unfoldable pub direction_bus : TransferDirection → DataPattern
direction_bus TransferDirection.into_accumulator = pattern_of 1 0 0 0
direction_bus TransferDirection.from_accumulator = pattern_of 0 1 0 0

unfoldable pub operand_transfer_bus : Operand8 → Operand8 → DataPattern
operand_transfer_bus Operand8.indirect_hl _ = pattern_of 0 1 0 0
operand_transfer_bus (Operand8.register _) Operand8.indirect_hl = pattern_of 1 0 0 0
operand_transfer_bus Operand8.immediate Operand8.indirect_hl = pattern_of 1 0 0 0
operand_transfer_bus _ _ = pattern_of 0 0 0 0

unfoldable pub data_pattern : Operation → DataPattern
unfolding direction_bus operand_transfer_bus
data_pattern Operation.store_sp_absolute = pattern_of 0 2 0 0
data_pattern (Operation.load_accumulator_indirect _ direction) = direction_bus direction
data_pattern (Operation.high_immediate_load direction) = direction_bus direction
data_pattern (Operation.high_c_load direction) = direction_bus direction
data_pattern (Operation.absolute_accumulator_load direction) = direction_bus direction
data_pattern (Operation.increment8 Operand8.indirect_hl) = pattern_of 1 1 0 0
data_pattern (Operation.decrement8 Operand8.indirect_hl) = pattern_of 1 1 0 0
data_pattern (Operation.load8_immediate Operand8.indirect_hl) = pattern_of 0 1 0 0
data_pattern (Operation.load8 destination source) = operand_transfer_bus destination source
data_pattern (Operation.alu8 _ Operand8.indirect_hl) = pattern_of 1 0 0 0
data_pattern (Operation.return (some _)) = pattern_of 0 0 2 0
data_pattern (Operation.return none) = pattern_of 2 0 0 0
data_pattern Operation.return_from_interrupt = pattern_of 2 0 0 0
data_pattern (Operation.pop _) = pattern_of 2 0 0 0
data_pattern (Operation.call (some _)) = pattern_of 0 0 0 2
data_pattern (Operation.call none) = pattern_of 0 2 0 0
data_pattern (Operation.push _) = pattern_of 0 2 0 0
data_pattern (Operation.restart _) = pattern_of 0 2 0 0
data_pattern (Operation.cb (CbOperation.test_bit _) Operand8.indirect_hl) = pattern_of 1 0 0 0
data_pattern (Operation.cb _ Operand8.indirect_hl) = pattern_of 1 1 0 0
data_pattern _ = pattern_of 0 0 0 0

abbrev opcode_fetches_of : InstructionEncoding → ℕ
opcode_fetches_of (InstructionEncoding.primary _) = 1
opcode_fetches_of (InstructionEncoding.cb _) = 2

abbrev immediate_reads_of : InstructionEncoding → ℕ → ℕ
immediate_reads_of (InstructionEncoding.primary _) byte_len = byte_len - 1
immediate_reads_of (InstructionEncoding.cb _) byte_len = 0

unfoldable pub bus_pattern : InstructionEncoding → Operation → ℕ → BusAccessPattern
unfolding data_pattern
bus_pattern encoding operation byte_len =
    let p = data_pattern operation in
    record {
      opcode_fetches = opcode_fetches_of encoding;
      immediate_reads = immediate_reads_of encoding byte_len;
      data_reads = p.data_reads;
      data_writes = p.data_writes;
      taken_data_reads = p.taken_data_reads;
      taken_data_writes = p.taken_data_writes;
    }

-- PC, IME, the run state, the M-cycles and F are always read; PC, IME and M-cycles always written.
abbrev base_reads : ℕ
base_reads =
    bit_or
      (bit_or
        (bit_or (bit_or (mask StateComponent.pc) (mask StateComponent.ime))
          (mask StateComponent.run_state))
        (mask StateComponent.m_cycles))
      (mask StateComponent.f)

abbrev base_writes : ℕ
base_writes =
    bit_or (bit_or (mask StateComponent.pc) (mask StateComponent.ime))
      (mask StateComponent.m_cycles)

unfoldable pub state_access : Operation → StateAccess
unfolding operation_access flag_effect preserves_flags mask
state_access operation =
    let added = operation_access operation in
    record {
      reads = bit_or base_reads added.reads;
      writes =
          bit_or (bit_or base_writes added.writes)
            (if preserves_flags (flag_effect operation) then 0 else mask StateComponent.f);
    }

unfoldable pub instruction : InstructionEncoding → Operation → ℕ → ℕ → Option ℕ → DecodedInstruction
unfolding class flag_effect state_access bus_pattern
instruction encoding operation byte_len base_m_cycles taken_m_cycles = record {
  encoding = encoding;
  class = class operation;
  operation = operation;
  byte_len = byte_len;
  timing = record { base_m_cycles = base_m_cycles; taken_m_cycles = taken_m_cycles };
  flags = flag_effect operation;
  state_access = state_access operation;
  bus = bus_pattern encoding operation byte_len;
}
