-- ===== src/Machine/Step.antt =====
-- The step relations (crates/zksm83-core/src/transition.rs) and the end of a step (bus.rs).
use zksm.Prelude.{
  ℕ, Bool, false, not, ◌==◌, List, [], ◌∷◌, Option, none, some, Result, ok, err, and_then, length,
  if◌then◌else◌,
}
use zksm.Isa.Types.{DecodedInstruction}
use zksm.Isa.Alignment.Rows.{from_decoded, packed}
use zksm.Devices.State.{Devices, Interrupt, pending_interrupt}
use zksm.Devices.Halt.{
  halt_idle_m_cycles, halt_until_vblank_m_cycles, halt_until_serial_m_cycles,
  halt_until_timer_m_cycles,
}
use zksm.Memory.Log.{TranscriptAccumulator, BusTranscriptError, append_event, append_row}
use zksm.Machine.State.{VmState, ImeState, RunState, is_dmg_post_boot_mbc3, can_execute_instruction}
use zksm.Machine.Bus.{BusWitness, BusEvent, StepError, StepKind, StepEffects}
use zksm.Machine.Bus.Kinds.{transcript_event}
use zksm.Machine.Executor.{
  BusAuthentication, Executor, new_executor, M, pure, fail, lift, ◌>>=◌, ◌>>◌, set_run_state,
}
use zksm.Machine.Executor.Data.{copy_dma_byte}
use zksm.Machine.Transition.{
  add_machine_timing, machine_event_marker, run_instruction, enter_interrupt, skip_halt,
}

pub data MachineEvent : Type 0 where
  interrupt : Interrupt → MachineEvent
  halt_wake halt_idle : MachineEvent
  halt_until_vblank halt_until_serial halt_until_timer : ℕ → MachineEvent

-- The chain of `if let` of a halted CPU without an interrupt.
abbrev pub or_timer : Option ℕ → MachineEvent
or_timer (some increment) = MachineEvent.halt_until_timer increment
or_timer none = MachineEvent.halt_idle

abbrev pub or_serial : Option ℕ → MachineEvent → MachineEvent
or_serial (some increment) rest = MachineEvent.halt_until_serial increment
or_serial none rest = rest

abbrev pub or_vblank : Option ℕ → MachineEvent → MachineEvent
or_vblank (some increment) rest = MachineEvent.halt_until_vblank increment
or_vblank none rest = rest

unfoldable pub idle_event : Devices → MachineEvent
idle_event d =
    or_vblank (halt_until_vblank_m_cycles d)
      (or_serial (halt_until_serial_m_cycles d) (or_timer (halt_until_timer_m_cycles d)))

abbrev pub as_interrupt : Option Interrupt → Option MachineEvent
as_interrupt (some i) = some (MachineEvent.interrupt i)
as_interrupt none = none

abbrev pub halted_event : Option Interrupt → ImeState → Devices → MachineEvent
halted_event (some i) ImeState.enabled d = MachineEvent.interrupt i
halted_event (some _) _ d = MachineEvent.halt_wake
halted_event none _ d = idle_event d

abbrev pub running_event : Option Interrupt → ImeState → Option MachineEvent
running_event pending ImeState.enabled = as_interrupt pending
running_event pending _ = none

abbrev pub event_of :
    RunState → ImeState → Option Interrupt → Devices → Result StepError (Option MachineEvent)
event_of RunState.stopped ime pending d = err (StepError.cpu_not_running RunState.stopped)
event_of RunState.running ime pending d = ok (running_event pending ime)
event_of RunState.halt_bug ime pending d = ok (running_event pending ime)
event_of RunState.halted ime pending d = ok (some (halted_event pending ime d))

unfoldable pub classify_dmg_machine_event : VmState → Result StepError (Option MachineEvent)
classify_dmg_machine_event state =
    event_of state.cpu.run_state state.cpu.ime (pending_interrupt state.dmg_devices)
      state.dmg_devices

abbrev pub convert {ℓ} :
    {E : Type 0} {A : Type ℓ} → (E → StepError) → Result E A → Result StepError A
convert f (ok a) = ok a
convert f (err e) = err (f e)

-- What a step did, for its effects.
pub record Ran : Type 0 where
  pub kind : StepKind
  pub instruction : DecodedInstruction
  pub branch_taken : Bool

abbrev pub effects_of : Ran → List BusEvent → StepEffects
effects_of ran bus_events = record {
  kind = ran.kind;
  instruction = ran.instruction;
  branch_taken = ran.branch_taken;
  bus_events = bus_events;
}

-- A machine event: its body, then its marker.
unfoldable pub machine_step : StepKind → ℕ → M Unit → M Ran
machine_step kind opcode body = do
  body
  marker ← lift (λ e. e) (machine_event_marker opcode)
  pure (record { kind = kind; instruction = marker; branch_taken = false })

-- `halt_wake`, `halt_until_vblank`, `halt_until_serial`, `halt_until_timer` and `halt_idle`.
unfoldable pub wake : M Ran
wake = machine_step StepKind.halt_wake 0x76 (set_run_state RunState.running)

unfoldable pub skip_until_vblank : ℕ → M Ran
skip_until_vblank increment = machine_step StepKind.halt_until_vblank 0x76 (skip_halt increment)

unfoldable pub skip_until_serial : ℕ → M Ran
skip_until_serial increment = machine_step StepKind.halt_until_serial 0x76 (skip_halt increment)

unfoldable pub skip_until_timer : ℕ → M Ran
skip_until_timer increment = machine_step StepKind.halt_until_timer 0x76 (skip_halt increment)

unfoldable pub idle_batch : VmState → M Ran
idle_batch state =
    machine_step StepKind.halt_idle 0x76 (add_machine_timing (halt_idle_m_cycles state.dmg_devices))

module _ (sha256 : List ℕ → List ℕ) where
  -- The `try_fold` over the events.
  unfoldable pub append_events :
      TranscriptAccumulator → List BusEvent → Result BusTranscriptError TranscriptAccumulator
  append_events t [] = ok t
  append_events t (event ∷ events) =
      and_then (append_event sha256 t (transcript_event event)) λ next. append_events next events

  unfoldable pub with_isa_row : Executor → TranscriptAccumulator → ℕ → Result StepError VmState
  with_isa_row x bus row =
      and_then
        (convert StepError.isa_transcript_commitment (append_row sha256 x.state.isa_transcript row))
        λ isa. ok (record x.state { bus_transcript = bus; isa_transcript = isa })

  unfoldable pub with_isa :
      DecodedInstruction → Executor → TranscriptAccumulator → Result StepError VmState
  with_isa instruction x bus =
      and_then (convert StepError.alignment_packing (packed (from_decoded instruction)))
        (with_isa_row x bus)

  -- The events into the bus transcript, then the row of the instruction into the ISA transcript.
  unfoldable pub with_transcripts : DecodedInstruction → Executor → Result StepError VmState
  with_transcripts instruction x =
      and_then
        (convert StepError.bus_transcript_commitment
          (append_events x.state.bus_transcript x.events))
        (with_isa instruction x)

  abbrev pub by_authentication :
      BusAuthentication → DecodedInstruction → Executor → Result StepError VmState
  by_authentication BusAuthentication.merkle instruction x = with_transcripts instruction x
  by_authentication BusAuthentication.lookup instruction x = ok x.state

  -- `Executor::finalize`, the events left to the caller.
  unfoldable pub finalize : DecodedInstruction → Executor → Result StepError VmState
  finalize instruction x =
      if not (length x.witnesses == 0)
      then err (StepError.surplus_witnesses (length x.witnesses))
      else by_authentication x.authentication instruction x

  -- `Executor::finish` and `Executor::finish_machine`.
  unfoldable pub finish : Ran → Executor → Result StepError (VmState × StepEffects)
  finish ran x = and_then (finalize ran.instruction x) λ state. ok (state, effects_of ran x.events)

  unfoldable pub dispatch_interrupt : Interrupt → M Ran
  dispatch_interrupt i =
      machine_step (StepKind.interrupt_dispatch i) 0xff (enter_interrupt sha256 i)

  unfoldable pub run_event : MachineEvent → VmState → M Ran
  run_event (MachineEvent.interrupt i) state = dispatch_interrupt i
  run_event MachineEvent.halt_wake state = wake
  run_event (MachineEvent.halt_until_vblank increment) state = skip_until_vblank increment
  run_event (MachineEvent.halt_until_serial increment) state = skip_until_serial increment
  run_event (MachineEvent.halt_until_timer increment) state = skip_until_timer increment
  run_event MachineEvent.halt_idle state = idle_batch state

  unfoldable pub execute_step : VmState → M Ran
  execute_step state =
      if not (can_execute_instruction state.cpu.run_state)
      then fail (StepError.cpu_not_running state.cpu.run_state)
      else do
        r ← run_instruction sha256 state
        pure (record { kind = StepKind.instruction; instruction = r.0; branch_taken = r.1 })

  unfoldable pub event_or_instruction : Option MachineEvent → VmState → M Ran
  event_or_instruction (some event) state = run_event event state
  event_or_instruction none state = execute_step state

  unfoldable pub dma_byte : M Ran
  dma_byte = machine_step StepKind.dma_byte 0x00 (copy_dma_byte sha256)

  unfoldable pub dmg_step : VmState → M Ran
  dmg_step state = if not (state.dmg_devices.dma_owed == 0) then dma_byte else do
    event ← lift (λ e. e) (classify_dmg_machine_event state)
    event_or_instruction event state

  -- `apply`, to the call that finishes the step.
  unfoldable pub step_body : VmState → M Ran
  step_body state =
      if is_dmg_post_boot_mbc3 state.profile then dmg_step state else execute_step state

  unfoldable pub apply :
      VmState → List BusWitness → BusAuthentication → Result StepError (VmState × StepEffects)
  apply state input authentication =
      and_then (step_body state (new_executor state input authentication)) λ r. finish r.0 r.1
