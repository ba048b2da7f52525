-- ===== src/Machine/Laws/Steps.antt =====
-- The bodies of the transitions (crates/zksm83-core/src/transition.rs) under the laws.
use zksm.Prelude.{ℕ, zero, suc, List, Bool}
use zksm.Isa.Types.{Operation, OpcodeClassification}
use zksm.Devices.State.{Devices, Interrupt}
use zksm.Machine.State.{VmState, RunState}
use zksm.Machine.Bus.{BusRole}
use zksm.Machine.Executor.{Executor, devices, set_devices, set_run_state}
use zksm.Machine.Operands.{ImmediateBytes}
use zksm.Machine.Transition.{
  add_m_cycles, run_devices, add_machine_timing, add_timing, apply_delayed_ime, defined_instruction,
  enter_halt_bug, fetch_and_advance, fetch_first_opcode, fetch_loop, fetch_immediates,
  push_interrupt_return, fetch_cb, fetch_primary, fetch_operation, run_instruction, enter_interrupt,
  skip_halt, increment_of,
}
use zksm.Machine.Triple.{
  Triple, Keeps, Triple-bind, Triple-bind_kept, Triple-if, Triple-pure, Keeps-pure, Keeps-fail,
  keeps_rules,
}
use zksm.Machine.Laws.{Phase, idle, Laws}
use zksm.Machine.Laws.Data.{fetch_instruction-Keeps, write_data-Keeps}
use zksm.Machine.Laws.Operands.{push_immediate-Keeps}
use zksm.Machine.Laws.Instructions.{execute-Keeps}

module _ {sha256 : List ℕ → List ℕ} {f : Executor → Executor} {H : Phase → Executor → Type 0}
    (laws : Laws sha256 f H) where
  apply_delayed_ime-Keeps : (o : Operation) (b : Bool) → Keeps f (H idle) (apply_delayed_ime o b)
  unfolding apply_delayed_ime
  apply_delayed_ime-Keeps o b = Triple-if _ _ _ (laws.put_ime _) (Keeps-pure _)

  fetch_and_advance-Keeps : (r : BusRole) → Keeps f (H idle) (fetch_and_advance sha256 r)
  unfolding fetch_and_advance
  fetch_and_advance-Keeps r =
      search (keeps_rules, laws.get_cpu, laws.put_pc, fetch_instruction-Keeps laws)

  pub fetch_first_opcode-Keeps : (b : Bool) → Keeps f (H idle) (fetch_first_opcode sha256 b)
  unfolding fetch_first_opcode
  fetch_first_opcode-Keeps b =
      search
        (keeps_rules, laws.get_cpu, laws.put_pc, laws.put_run_state, fetch_instruction-Keeps laws)

  fetch_loop-Keeps : (n : ℕ) (i : ImmediateBytes) → Keeps f (H idle) (fetch_loop sha256 n i)
  unfolding fetch_loop
  fetch_loop-Keeps zero i = Keeps-pure i
  fetch_loop-Keeps (suc n) i =
      Triple-bind_kept _ _ (fetch_and_advance-Keeps _) λ v.
        Triple-bind_kept _ _ (push_immediate-Keeps laws i v) λ pushed. fetch_loop-Keeps n pushed

  defined_instruction-Keeps : (c : OpcodeClassification) → Keeps f (H idle) (defined_instruction c)
  unfolding defined_instruction
  defined_instruction-Keeps (OpcodeClassification.defined d) = Keeps-pure d
  defined_instruction-Keeps (OpcodeClassification.undefined b) = Keeps-fail _

  fetch_cb-Keeps : Keeps f (H idle) (fetch_cb sha256)
  unfolding fetch_cb
  fetch_cb-Keeps = Triple-bind_kept _ _ (fetch_and_advance-Keeps _) λ v. Keeps-pure _

  fetch_primary-Keeps : (v : ℕ) → Keeps f (H idle) (fetch_primary sha256 v)
  unfolding fetch_primary fetch_immediates
  fetch_primary-Keeps v =
      Triple-bind_kept _ _ (defined_instruction-Keeps _)
        λ d. Triple-bind_kept _ _ (fetch_loop-Keeps _ _) λ i. Keeps-pure _

  pub fetch_operation-Keeps : (v : ℕ) → Keeps f (H idle) (fetch_operation sha256 v)
  unfolding fetch_operation
  fetch_operation-Keeps v = Triple-if _ _ _ fetch_cb-Keeps (fetch_primary-Keeps v)

  push_interrupt_return-Keeps : (v : ℕ) → Keeps f (H idle) (push_interrupt_return sha256 v)
  unfolding push_interrupt_return
  push_interrupt_return-Keeps v =
      search (keeps_rules, laws.get_cpu, laws.put_sp, write_data-Keeps laws) depth 9

  -- `Q n` is what holds once `n` M-cycles are counted.
  module _ (Q : ℕ → Executor → Type 0)
      (count : (n : ℕ) → Triple f (H idle) (add_m_cycles n) (λ _. Q n))
      (devices-Q : (n : ℕ) → Keeps f (Q n) devices)
      (set_devices-Q : (n : ℕ) (d : Devices) → Keeps f (Q n) (set_devices d))
      (set_run_state-Q : (n : ℕ) (r : RunState) → Keeps f (Q n) (set_run_state r)) where
    run_devices-Q : (n m : ℕ) (b : Bool) → Keeps f (Q n) (run_devices m b)
    unfolding run_devices
    run_devices-Q n m b = Triple-bind_kept _ _ (devices-Q n) λ d. set_devices-Q n _

    enter_halt_bug-Q : (n : ℕ) (s : VmState) (o : Operation) → Keeps f (Q n) (enter_halt_bug s o)
    unfolding enter_halt_bug
    enter_halt_bug-Q n s o = Triple-if _ _ _ (set_run_state-Q n _) (Keeps-pure _)

    pub run_instruction-Triple :
        (s : VmState)
        → Triple f (H idle) (run_instruction sha256 s) (λ r. Q (increment_of r.0.timing r.1))
    unfolding run_instruction add_timing
    run_instruction-Triple s = Triple-bind_kept _ _ (fetch_first_opcode-Keeps _) λ opcode.
        Triple-bind_kept _ _ (fetch_operation-Keeps opcode) λ fetched.
          Triple-bind_kept _ _ (execute-Keeps laws _ _) λ taken.
            Triple-bind_kept _ _ (apply_delayed_ime-Keeps _ _) λ _.
              Triple-bind _ _ (Triple-bind _ _ (count _) λ _. run_devices-Q _ _ _)
                λ _. Triple-bind_kept _ _ (enter_halt_bug-Q _ s _) λ _. Triple-pure _ (λ x h. h)

    pub add_machine_timing-Triple : (n : ℕ) → Triple f (H idle) (add_machine_timing n) (λ _. Q n)
    unfolding add_machine_timing
    add_machine_timing-Triple n =
        Triple-bind_kept _ _ (laws.access.get_devices idle)
          λ d. Triple-bind _ _ (count n) λ _. run_devices-Q n n _

    pub enter_interrupt-Triple :
        (i : Interrupt) → Triple f (H idle) (enter_interrupt sha256 i) (λ _. Q 5)
    unfolding enter_interrupt
    enter_interrupt-Triple i = Triple-bind_kept _ _ (laws.put_run_state _) λ _.
        Triple-bind_kept _ _ (laws.put_ime _) λ _.
          Triple-bind_kept _ _ (laws.access.get_devices idle) λ d.
            Triple-bind_kept _ _ (laws.put_devices _ idle) λ _.
              Triple-bind_kept _ _ (laws.get_cpu idle) λ c.
                Triple-bind_kept _ _ (push_interrupt_return-Keeps _)
                  λ _. Triple-bind_kept _ _ (laws.put_pc _) λ _. add_machine_timing-Triple 5

    pub skip_halt-Triple : (n : ℕ) → Triple f (H idle) (skip_halt n) (λ _. Q n)
    unfolding skip_halt
    skip_halt-Triple n =
        Triple-bind _ _ (count n) λ _. Triple-bind_kept _ _ (devices-Q n) λ d. set_devices-Q n _
