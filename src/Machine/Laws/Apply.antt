-- ===== src/Machine/Laws/Apply.antt =====
-- A whole step (crates/zksm83-core/src/transition.rs, `apply`) under the laws.
use mathlib.Core.Path.{subst}
use zksm.Prelude.{ℕ, ◌≡◌, refl, sym, ap, List, Option, none, some, Result, ok}
use zksm.Isa.Alignment.Rows.{unwrap_or_zero}
use zksm.Devices.State.{Devices, Interrupt}
use zksm.Devices.Halt.{
  halt_idle_m_cycles, halt_until_vblank_m_cycles, halt_until_serial_m_cycles,
  halt_until_timer_m_cycles,
}
use zksm.Machine.State.{VmState, RunState, ImeState}
use zksm.Machine.Bus.{StepKind, StepError}
use zksm.Machine.Executor.{Executor, M, devices, set_devices, set_run_state}
use zksm.Machine.Transition.{add_m_cycles, increment_of}
use zksm.Machine.Step.{
  MachineEvent, Ran, or_timer, or_serial, or_vblank, idle_event, as_interrupt, halted_event,
  event_of, classify_dmg_machine_event, machine_step, dispatch_interrupt, wake, skip_until_vblank,
  skip_until_serial, skip_until_timer, idle_batch, run_event, execute_step, event_or_instruction,
  dma_byte, dmg_step, step_body,
}
use zksm.Machine.Triple.{
  Triple, Keeps, Triple-bind, Triple-bind_kept, Triple-if, Triple-pure, Triple-fail, Triple-lift,
  Triple-given, Triple-weaken,
}
use zksm.Machine.Laws.{Phase, idle, Laws}
use zksm.Machine.Laws.Data.{copy_dma_byte-Keeps}
use zksm.Machine.Laws.Steps.{
  run_instruction-Triple, add_machine_timing-Triple, enter_interrupt-Triple, skip_halt-Triple,
}

-- The M-cycles of a step that did `ran` from a state.
unfoldable pub duration_of : StepKind → ℕ → Devices → ℕ
duration_of StepKind.instruction n d = n
duration_of StepKind.halt_idle n d = halt_idle_m_cycles d
duration_of StepKind.halt_until_vblank n d = unwrap_or_zero (halt_until_vblank_m_cycles d)
duration_of StepKind.halt_until_serial n d = unwrap_or_zero (halt_until_serial_m_cycles d)
duration_of StepKind.halt_until_timer n d = unwrap_or_zero (halt_until_timer_m_cycles d)
duration_of StepKind.halt_wake n d = 0
duration_of StepKind.dma_byte n d = 0
duration_of (StepKind.interrupt_dispatch i) n d = 5

unfoldable pub duration : VmState → Ran → ℕ
unfolding duration_of
duration state ran =
    duration_of ran.kind (increment_of ran.instruction.timing ran.branch_taken) state.dmg_devices

-- The M-cycles that a machine event comes with are those of the device skip.
abbrev Fits : Devices → MachineEvent → Type 0
Fits d (MachineEvent.halt_until_vblank n) = unwrap_or_zero (halt_until_vblank_m_cycles d) ≡ n
Fits d (MachineEvent.halt_until_serial n) = unwrap_or_zero (halt_until_serial_m_cycles d) ≡ n
Fits d (MachineEvent.halt_until_timer n) = unwrap_or_zero (halt_until_timer_m_cycles d) ≡ n
Fits d (MachineEvent.interrupt i) = Unit
Fits d MachineEvent.halt_wake = Unit
Fits d MachineEvent.halt_idle = Unit

fits :
    (d : Devices) (v s t : Option ℕ)
    → halt_until_vblank_m_cycles d ≡ v
    → halt_until_serial_m_cycles d ≡ s
    → halt_until_timer_m_cycles d ≡ t
    → Fits d (or_vblank v (or_serial s (or_timer t)))
fits d (some n) s t ev es et = ap unwrap_or_zero ev
fits d none (some n) t ev es et = ap unwrap_or_zero es
fits d none none (some n) ev es et = ap unwrap_or_zero et
fits d none none none ev es et = tt

idle_event-Fits : (d : Devices) → Fits d (idle_event d)
unfolding idle_event
idle_event-Fits d = fits d _ _ _ refl refl refl

event_injective :
    (a b : MachineEvent)
    → ◌≡◌ {A = Result StepError (Option MachineEvent)} (ok (some a)) (ok (some b))
    → a ≡ b
event_injective a b h = cc

interrupt-Fits :
    (d : Devices) (p : Option Interrupt) (event : MachineEvent)
    → ◌≡◌ {A = Result StepError (Option MachineEvent)} (ok (as_interrupt p)) (ok (some event))
    → Fits d event
interrupt-Fits d (some i) event h = subst (Fits d) (event_injective _ event h) tt
interrupt-Fits d none event h = absurd (cc h)

halted-Fits : (d : Devices) (i : ImeState) (p : Option Interrupt) → Fits d (halted_event p i d)
unfolding idle_event
halted-Fits d ImeState.enabled (some j) = tt
halted-Fits d ImeState.disabled (some j) = tt
halted-Fits d ImeState.enable_pending (some j) = tt
halted-Fits d i none = idle_event-Fits d

event_of-Fits :
    (r : RunState) (i : ImeState) (p : Option Interrupt) (d : Devices) (event : MachineEvent)
    → event_of r i p d ≡ ok (some event)
    → Fits d event
unfolding idle_event
event_of-Fits RunState.stopped i p d event h = absurd (cc h)
event_of-Fits RunState.halted i p d event h =
    subst (Fits d) (event_injective _ event h) (halted-Fits d i p)
event_of-Fits RunState.running ImeState.enabled p d event h = interrupt-Fits d p event h
event_of-Fits RunState.running ImeState.disabled p d event h = absurd (cc h)
event_of-Fits RunState.running ImeState.enable_pending p d event h = absurd (cc h)
event_of-Fits RunState.halt_bug ImeState.enabled p d event h = interrupt-Fits d p event h
event_of-Fits RunState.halt_bug ImeState.disabled p d event h = absurd (cc h)
event_of-Fits RunState.halt_bug ImeState.enable_pending p d event h = absurd (cc h)

module _ {sha256 : List ℕ → List ℕ} {f : Executor → Executor} {H : Phase → Executor → Type 0}
    (laws : Laws sha256 f H) (Q : ℕ → Executor → Type 0) (start : (x : Executor) → H idle x → Q 0 x)
    (count : (n : ℕ) → Triple f (H idle) (add_m_cycles n) (λ _. Q n))
    (devices-Q : (n : ℕ) → Keeps f (Q n) devices)
    (set_devices-Q : (n : ℕ) (d : Devices) → Keeps f (Q n) (set_devices d))
    (set_run_state-Q : (n : ℕ) (r : RunState) → Keeps f (Q n) (set_run_state r)) where
  machine_step-Triple :
      (s : VmState) (kind : StepKind) (opcode n : ℕ) (body : M Unit)
      → Triple f (H idle) body (λ _. Q n)
      → ((m : ℕ) → n ≡ duration_of kind m s.dmg_devices)
      → Triple f (H idle) (machine_step kind opcode body) (λ r. Q (duration s r))
  unfolding machine_step duration
  machine_step-Triple s kind opcode n body h e = Triple-bind _ _ h λ _.
      Triple-bind_kept _ _ (Triple-lift _ _ (λ a x _ q. q))
        λ marker. Triple-pure _ (λ x q. subst (λ m. Q m x) (e _) q)

  run_event-Triple :
      (s : VmState) (event : MachineEvent)
      → Fits s.dmg_devices event
      → Triple f (H idle) (run_event sha256 event s) (λ r. Q (duration s r))
  unfolding run_event dispatch_interrupt wake skip_until_vblank skip_until_serial skip_until_timer
      idle_batch duration_of
  run_event-Triple s (MachineEvent.interrupt i) e =
      machine_step-Triple s _ _ 5 _
        (enter_interrupt-Triple laws Q count devices-Q set_devices-Q set_run_state-Q i) (λ m. refl)
  run_event-Triple s MachineEvent.halt_wake e =
      machine_step-Triple s _ _ 0 _ (Triple-weaken _ (laws.put_run_state _) (λ a. start))
        (λ m. refl)
  run_event-Triple s (MachineEvent.halt_until_vblank n) e =
      machine_step-Triple s _ _ n _
        (skip_halt-Triple laws Q count devices-Q set_devices-Q set_run_state-Q n) (λ m. sym e)
  run_event-Triple s (MachineEvent.halt_until_serial n) e =
      machine_step-Triple s _ _ n _
        (skip_halt-Triple laws Q count devices-Q set_devices-Q set_run_state-Q n) (λ m. sym e)
  run_event-Triple s (MachineEvent.halt_until_timer n) e =
      machine_step-Triple s _ _ n _
        (skip_halt-Triple laws Q count devices-Q set_devices-Q set_run_state-Q n) (λ m. sym e)
  run_event-Triple s MachineEvent.halt_idle e =
      machine_step-Triple s _ _ _ _
        (add_machine_timing-Triple laws Q count devices-Q set_devices-Q set_run_state-Q _)
        (λ m. refl)

  execute_step-Triple :
      (s : VmState) → Triple f (H idle) (execute_step sha256 s) (λ r. Q (duration s r))
  unfolding execute_step duration duration_of
  execute_step-Triple s = Triple-if _ _ _ (Triple-fail _) (
      Triple-bind _ _
        (run_instruction-Triple laws Q count devices-Q set_devices-Q set_run_state-Q s)
        λ r. Triple-pure _ (λ x q. q))

  event_or_instruction-Triple :
      (s : VmState) (event : Option MachineEvent)
      → classify_dmg_machine_event s ≡ ok event
      → Triple f (H idle) (event_or_instruction sha256 event s) (λ r. Q (duration s r))
  unfolding event_or_instruction classify_dmg_machine_event
  event_or_instruction-Triple s none e = execute_step-Triple s
  event_or_instruction-Triple s (some event) e =
      run_event-Triple s event (event_of-Fits _ _ _ _ event e)

  dmg_step-Triple : (s : VmState) → Triple f (H idle) (dmg_step sha256 s) (λ r. Q (duration s r))
  unfolding dmg_step dma_byte duration_of
  dmg_step-Triple s =
      Triple-if _ _ _
        (machine_step-Triple s _ _ 0 _ (Triple-weaken _ (copy_dma_byte-Keeps laws) (λ a. start))
          (λ m. refl))
        (Triple-bind _ _
          (Triple-lift {Q = λ event x. (classify_dmg_machine_event s ≡ ok event) × H idle x} _ _
            (λ event x e q. (e, q)))
          λ event. Triple-given (event_or_instruction-Triple s event))

  pub step_body-Triple :
      (s : VmState) → Triple f (H idle) (step_body sha256 s) (λ r. Q (duration s r))
  unfolding step_body
  step_body-Triple s = Triple-if _ _ _ (dmg_step-Triple s) (execute_step-Triple s)
