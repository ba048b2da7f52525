-- ===== src/Isa/Alignment/Rows.antt =====
-- `AlignedInstruction` and its packing (crates/zksm83-isa/src/alignment.rs).
use Prim.Native.String.{String}
use mathlib.Core.Option.{Option, none, some}
use zksm.Prelude.{
  ℕ, ◌+◌, ◌*◌, ◌^◌, bit_or, min, ltb, leb, has_bits, ◌||◌, if◌then◌else◌, List, [], ◌∷◌, Result, ok,
  err, and_then,
}
use zksm.Isa.Types.{InstructionEncoding, FlagEffect, DecodedInstruction, class_code}
use zksm.Isa.Access.{StateComponent, mask}
use zksm.Isa.Alignment.{flag_action_code, descriptor, pc_rule, pc_rule_code}

pub record AlignedInstruction : Type 0 where
  pub prefix : ℕ
  pub opcode : ℕ
  pub family_id : ℕ
  pub operation : ℕ
  pub argument_zero : ℕ
  pub argument_one : ℕ
  pub byte_len : ℕ
  pub base_m_cycles : ℕ
  pub taken_m_cycles : ℕ
  pub pc_rule : ℕ
  pub flag_rule : ℕ
  pub register_reads : ℕ
  pub register_writes : ℕ
  pub opcode_fetches : ℕ
  pub immediate_reads : ℕ
  pub data_reads : ℕ
  pub data_writes : ℕ
  pub taken_data_reads : ℕ
  pub taken_data_writes : ℕ

abbrev key_prefix : InstructionEncoding → ℕ
key_prefix (InstructionEncoding.primary _) = 0
key_prefix (InstructionEncoding.cb _) = 1

abbrev key_opcode : InstructionEncoding → ℕ
key_opcode (InstructionEncoding.primary byte) = byte
key_opcode (InstructionEncoding.cb byte) = byte

abbrev pub unwrap_or_zero : Option ℕ → ℕ
unwrap_or_zero none = 0
unwrap_or_zero (some x) = x

abbrev pub all_components : List StateComponent
all_components =
    StateComponent.a ∷ StateComponent.b ∷ StateComponent.c ∷ StateComponent.d ∷ StateComponent.e
    ∷ StateComponent.h ∷ StateComponent.l ∷ StateComponent.f ∷ StateComponent.pc ∷ StateComponent.sp
    ∷ StateComponent.ime ∷ StateComponent.run_state ∷ StateComponent.m_cycles ∷ []

-- The fold over the components: the bit of each component that the access mask has.
unfoldable pub component_bits : List StateComponent → ℕ → ℕ → ℕ → ℕ
unfolding mask
component_bits [] index access bits = bits
component_bits (component ∷ rest) index access bits =
    component_bits rest (index + 1) access
      (if has_bits access (mask component) then bit_or bits (2 ^ index) else bits)

unfoldable pub flag_rule : FlagEffect → ℕ
unfolding flag_action_code
flag_rule flags =
    bit_or
      (bit_or (bit_or (flag_action_code flags.zero) (flag_action_code flags.subtract * 4))
        (flag_action_code flags.half_carry * 16))
      (flag_action_code flags.carry * 64)

unfoldable pub from_decoded : DecodedInstruction → AlignedInstruction
unfolding class_code descriptor pc_rule pc_rule_code flag_rule component_bits
from_decoded instruction =
    let codes = descriptor instruction.operation in
    record {
      prefix = key_prefix instruction.encoding;
      opcode = key_opcode instruction.encoding;
      family_id = class_code instruction.class;
      operation = codes.operation;
      argument_zero = codes.argument_zero;
      argument_one = codes.argument_one;
      byte_len = instruction.byte_len;
      base_m_cycles = instruction.timing.base_m_cycles;
      taken_m_cycles = unwrap_or_zero instruction.timing.taken_m_cycles;
      pc_rule = pc_rule_code (pc_rule instruction.operation);
      flag_rule = flag_rule instruction.flags;
      register_reads = component_bits all_components 0 instruction.state_access.reads 0;
      register_writes = component_bits all_components 0 instruction.state_access.writes 0;
      opcode_fetches = instruction.bus.opcode_fetches;
      immediate_reads = instruction.bus.immediate_reads;
      data_reads = instruction.bus.data_reads;
      data_writes = instruction.bus.data_writes;
      taken_data_reads = instruction.bus.taken_data_reads;
      taken_data_writes = instruction.bus.taken_data_writes;
    }

-- One entry of the packed row: its name, its value and its width.
pub record Field : Type 0 where
  pub field : String
  pub value : ℕ
  pub bits : ℕ

pub record AlignmentPackingError : Type 0 where
  pub field : String
  pub value : ℕ
  pub bits : ℕ

pub record Packing : Type 0 where
  pub packed : ℕ
  pub shift : ℕ

-- `1_u64.checked_shl(bits).unwrap_or(0)`
abbrev pub width_limit : ℕ → ℕ
width_limit bits = if ltb bits 64 then 2 ^ bits else 0

unfoldable pub append_packed : Packing → Field → Result AlignmentPackingError Packing
append_packed p f =
    if leb (width_limit f.bits) f.value || ltb 128 (p.shift + f.bits)
    then err (record { field = f.field; value = f.value; bits = f.bits })
    else ok (record {
      packed = bit_or p.packed (f.value * 2 ^ p.shift);
      shift = min 255 (p.shift + f.bits);
    })

unfoldable pub append_all : Packing → List Field → Result AlignmentPackingError Packing
append_all p [] = ok p
append_all p (f ∷ rest) = and_then (append_packed p f) (λ q. append_all q rest)

abbrev named : String → ℕ → ℕ → Field
named field value bits = record { field = field; value = value; bits = bits }

unfoldable pub fields : AlignedInstruction → List Field
fields row =
    named "prefix" row.prefix 1
    ∷ named "opcode" row.opcode 8
    ∷ named "family_id" row.family_id 8
    ∷ named "operation" row.operation 8
    ∷ named "argument_zero" row.argument_zero 8
    ∷ named "argument_one" row.argument_one 8
    ∷ named "byte_len" row.byte_len 2
    ∷ named "base_m_cycles" row.base_m_cycles 4
    ∷ named "taken_m_cycles" row.taken_m_cycles 4
    ∷ named "pc_rule" row.pc_rule 3
    ∷ named "flag_rule" row.flag_rule 8
    ∷ named "register_reads" row.register_reads 16
    ∷ named "register_writes" row.register_writes 16
    ∷ named "opcode_fetches" row.opcode_fetches 2
    ∷ named "immediate_reads" row.immediate_reads 2
    ∷ named "data_reads" row.data_reads 2
    ∷ named "data_writes" row.data_writes 2
    ∷ named "taken_data_reads" row.taken_data_reads 2
    ∷ named "taken_data_writes" row.taken_data_writes 2
    ∷ []

unfoldable pub packed : AlignedInstruction → Result AlignmentPackingError ℕ
packed row =
    and_then (append_all (record { packed = 0; shift = 0 }) (fields row)) (λ p. ok p.packed)
