-- ===== src/Machine/Transition.antt =====
-- One transition of the machine (crates/zksm83-core/src/transition.rs).
use zksm.Prelude.{
  ℕ, zero, suc, ◌+◌, ◌-◌, Bool, true, false, not, ◌&&◌, ◌==◌, ltb, List, Option, none, some, Result,
  ok, err, u16_add, u16_sub, u64_limit, high_byte, low_byte, if◌then◌else◌,
}
use zksm.Isa.Types.{DecodedInstruction, Operation, OpcodeClassification, Timing}
use zksm.Isa.Decode.{decode_primary, decode_cb}
use zksm.Devices.State.{Interrupt, vector, pending_interrupt, acknowledge_interrupt}
use zksm.Devices.Lines.{schedule_dma_bytes}
use zksm.Devices.Clock.{advance_m_cycles, advance_quiet_long}
use zksm.Machine.State.{VmState, ImeState, RunState}
use zksm.Machine.Bus.{BusRole, StepError}
use zksm.Machine.Executor.{
  M, pure, fail, ◌>>=◌, ◌>>◌, cpu, devices, set_pc, set_sp, set_ime, set_run_state, set_m_cycles,
  set_devices,
}
use zksm.Machine.Executor.Data.{fetch_instruction, write_data}
use zksm.Machine.Operands.{ImmediateBytes, no_immediate, push_immediate}
use zksm.Machine.Execute.{execute}

-- `self.m_cycles().checked_add(increment)`, stored.
unfoldable pub add_m_cycles : ℕ → M Unit
add_m_cycles increment = do
  c ← cpu
  if ltb (c.m_cycles + increment) u64_limit
      then set_m_cycles (c.m_cycles + increment)
      else fail StepError.cycle_count_overflow

-- The devices run for the M-cycles of a step, and OAM DMA owes its bytes.
unfoldable pub run_devices : ℕ → Bool → M Unit
run_devices increment dma_active_at_start = do
  d ← devices
  set_devices (schedule_dma_bytes increment dma_active_at_start (advance_m_cycles increment d))

unfoldable pub add_machine_timing : ℕ → M Unit
add_machine_timing increment = do
  d ← devices
  add_m_cycles increment
  run_devices increment d.dma_active

abbrev pub taken_or_base : Option ℕ → ℕ → ℕ
taken_or_base none base = base
taken_or_base (some cycles) base = cycles

unfoldable pub increment_of : Timing → Bool → ℕ
increment_of timing branch_taken =
    if branch_taken
    then taken_or_base timing.taken_m_cycles timing.base_m_cycles
    else timing.base_m_cycles

unfoldable pub add_timing : DecodedInstruction → Bool → Bool → M Unit
add_timing instruction branch_taken dma_active_at_start = do
  add_m_cycles (increment_of instruction.timing branch_taken)
  run_devices (increment_of instruction.timing branch_taken) dma_active_at_start

abbrev pub is_disable_interrupts : Operation → Bool
is_disable_interrupts Operation.disable_interrupts = true
is_disable_interrupts _ = false

abbrev pub is_halt : Operation → Bool
is_halt Operation.halt = true
is_halt _ = false

unfoldable pub apply_delayed_ime : Operation → Bool → M Unit
apply_delayed_ime operation enable_after_step =
    if enable_after_step && not (is_disable_interrupts operation)
    then set_ime ImeState.enabled
    else pure tt

unfoldable pub marker_of : OpcodeClassification → Result StepError DecodedInstruction
marker_of (OpcodeClassification.defined instruction) = ok instruction
marker_of (OpcodeClassification.undefined _) = err StepError.machine_event_marker_invariant

unfoldable pub machine_event_marker : ℕ → Result StepError DecodedInstruction
unfolding marker_of
machine_event_marker opcode = marker_of (decode_primary opcode)

unfoldable pub defined_instruction : OpcodeClassification → M DecodedInstruction
defined_instruction (OpcodeClassification.defined instruction) = pure instruction
defined_instruction (OpcodeClassification.undefined byte) = fail (StepError.undefined_opcode byte)

abbrev pub is_enable_pending : ImeState → Bool
is_enable_pending ImeState.enable_pending = true
is_enable_pending _ = false

abbrev pub is_enabled : ImeState → Bool
is_enabled ImeState.enabled = true
is_enabled _ = false

abbrev pub is_halt_bug : RunState → Bool
is_halt_bug RunState.halt_bug = true
is_halt_bug _ = false

abbrev pub is_some : Option Interrupt → Bool
is_some none = false
is_some (some _) = true

-- HALT with interrupts disabled and one pending starts the HALT bug.
unfoldable pub enter_halt_bug : VmState → Operation → M Unit
enter_halt_bug state operation =
    if is_halt operation
      && (not (is_enabled state.cpu.ime) && is_some (pending_interrupt state.dmg_devices))
    then set_run_state RunState.halt_bug
    else pure tt

-- The fetches of a step, and its interrupt pushes.
module _ (sha256 : List ℕ → List ℕ) where
  unfoldable pub fetch_and_advance : BusRole → M ℕ
  fetch_and_advance role = do
    c ← cpu
    value ← fetch_instruction sha256 c.pc role
    set_pc (u16_add c.pc 1)
    pure value

  unfoldable pub fetch_first_opcode : Bool → M ℕ
  fetch_first_opcode halt_bug = do
    c ← cpu
    value ← fetch_instruction sha256 c.pc BusRole.opcode_fetch
    (if halt_bug then set_run_state RunState.running else set_pc (u16_add c.pc 1))
    pure value

  -- The loop over the bytes after the opcode.
  unfoldable pub fetch_loop : ℕ → ImmediateBytes → M ImmediateBytes
  fetch_loop zero immediate = pure immediate
  fetch_loop (suc left) immediate = do
    value ← fetch_and_advance BusRole.immediate_read
    pushed ← push_immediate immediate value
    fetch_loop left pushed

  unfoldable pub fetch_immediates : ℕ → M ImmediateBytes
  unfolding fetch_loop
  fetch_immediates instruction_len = fetch_loop (instruction_len - 1) no_immediate

  unfoldable pub push_interrupt_return : ℕ → M Unit
  push_interrupt_return value = do
    c ← cpu
    write_data sha256 (u16_sub c.sp 1) (high_byte value)
    set_sp (u16_sub c.sp 1)
    write_data sha256 (u16_sub (u16_sub c.sp 1) 1) (low_byte value)
    set_sp (u16_sub (u16_sub c.sp 1) 1)

  -- The instruction that an opcode starts, with its immediates.
  unfoldable pub fetch_cb : M (DecodedInstruction × ImmediateBytes)
  fetch_cb = do
    secondary ← fetch_and_advance BusRole.opcode_fetch
    pure (decode_cb secondary, no_immediate)

  unfoldable pub fetch_primary : ℕ → M (DecodedInstruction × ImmediateBytes)
  fetch_primary opcode = do
    instruction ← defined_instruction (decode_primary opcode)
    immediate ← fetch_immediates instruction.byte_len
    pure (instruction, immediate)

  unfoldable pub fetch_operation : ℕ → M (DecodedInstruction × ImmediateBytes)
  fetch_operation opcode = if opcode == 0xcb then fetch_cb else fetch_primary opcode

  -- The instruction path of `apply`, from the state before the step.
  unfoldable pub run_instruction : VmState → M (DecodedInstruction × Bool)
  run_instruction state = do
    opcode ← fetch_first_opcode (is_halt_bug state.cpu.run_state)
    fetched ← fetch_operation opcode
    branch_taken ← execute sha256 fetched.0 fetched.1
    apply_delayed_ime fetched.0.operation (is_enable_pending state.cpu.ime)
    add_timing fetched.0 branch_taken state.dmg_devices.dma_active
    enter_halt_bug state fetched.0.operation
    pure (fetched.0, branch_taken)

  -- The bodies of the machine events.
  unfoldable pub enter_interrupt : Interrupt → M Unit
  enter_interrupt interrupt = do
    set_run_state RunState.running
    set_ime ImeState.disabled
    d ← devices
    set_devices (acknowledge_interrupt interrupt d)
    c ← cpu
    push_interrupt_return c.pc
    set_pc (vector interrupt)
    add_machine_timing 5

unfoldable pub skip_halt : ℕ → M Unit
skip_halt increment = do
  add_m_cycles increment
  d ← devices
  set_devices (advance_quiet_long increment d)
