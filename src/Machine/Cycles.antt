-- ===== src/Machine/Cycles.antt =====
-- The M-cycle counter of a step (crates/zksm83-core/src/transition.rs).
use mathlib.Core.Path.{subst}
use zksm.Prelude.{
  ℕ, ◌+◌, ◌<◌, ◌≡◌, refl, sym, ap, ◌∙◌, inl, inr, List, Bool, true, false, ltb, ltb→lt, ok,
  u64_limit, arith, if◌then◌else◌,
}
use zksm.Devices.State.{Devices}
use zksm.Memory.Witness.{RomRead, MemoryRead, MemoryWrite}
use zksm.Machine.State.{VmState, CpuState, RunState}
use zksm.Machine.Bus.{BusWitness, StepEffects, StepError}
use zksm.Machine.Executor.{
  Executor, BusAuthentication, cpu, devices, set_devices, set_run_state, set_m_cycles, fail,
}
use zksm.Machine.Executor.Access.{authenticate_rom, authenticate_read, authenticate_write}
use zksm.Machine.Transition.{add_m_cycles, increment_of}
use zksm.Machine.Step.{apply, step_body}
use zksm.Machine.Triple.{Triple, Keeps, Triple-bind, Triple-fail, Triple-total, Triple-given}
use zksm.Machine.Laws.{Phase, idle, Laws}
use zksm.Machine.Laws.Apply.{duration_of, duration, step_body-Triple}
use zksm.Machine.Laws.Finish.{apply-ok, finalize-ok, by_authentication-ok}
use zksm.Machine.Laws.Frame.{View, view, same, frame_laws}
use zksm.Machine.Laws.Primitives.{authenticate_rom-ok, authenticate_read-ok, authenticate_write-ok}

module _ (sha256 : List ℕ → List ℕ) (start : ℕ) where
  abbrev Reads : Phase → View → Type 0
  Reads p v = v.m_cycles ≡ start

  Reads-rom : (r : RomRead) → Keeps same (λ x. Reads idle (view x)) (authenticate_rom sha256 r)
  Reads-rom r = record {
    at = λ x a y p h. elim (authenticate_rom-ok sha256 r x a y h) [
      | inl e ↦ (h, ap (λ z. z.state.cpu.m_cycles) e.1 ∙ p)
      | inr e ↦ (h, ap (λ z. z.state.cpu.m_cycles) e.1 ∙ p)
    ];
  }

  Reads-read : (r : MemoryRead) → Keeps same (λ x. Reads idle (view x)) (authenticate_read sha256 r)
  Reads-read r = record {
    at = λ x a y p h. elim (authenticate_read-ok sha256 r x a y h) [
      | inl e ↦ (h, ap (λ z. z.state.cpu.m_cycles) e.1 ∙ p)
      | inr e ↦ (h, ap (λ z. z.state.cpu.m_cycles) e.1 ∙ p)
    ];
  }

  Reads-write :
      (w : MemoryWrite) → Keeps same (λ x. Reads idle (view x)) (authenticate_write sha256 w)
  Reads-write w = record {
    at = λ x a y p h. elim (authenticate_write-ok sha256 w x a y h) [
      | inl e ↦ (h, ap (λ z. z.state.cpu.m_cycles) e.1 ∙ p)
      | inr e ↦ (h, ap (λ z. z.state.cpu.m_cycles) e.2 ∙ p)
    ];
  }

  Reads-Laws : Laws sha256 same (λ p x. Reads p (view x))
  Reads-Laws = frame_laws sha256 Reads (record {
    take = λ v w ws e h. h;
    check_rom = Reads-rom;
    check_read = Reads-read;
    check_write = Reads-write;
    check_input = λ b v h. h;
    record_event = λ event w v e h. h;
    silent_event = λ event v e h. h;
  })

  -- `n` M-cycles later, without overflow.
  abbrev Counted : ℕ → Executor → Type 0
  Counted n x = (x.state.cpu.m_cycles ≡ start + n) × (start < u64_limit → start + n < u64_limit)

  counts :
      (n : ℕ) (b : Bool) (c : CpuState)
      → ltb (c.m_cycles + n) u64_limit ≡ b
      → c.m_cycles ≡ start
      → Triple same
          (λ x. Reads idle (view x))
          (if b then set_m_cycles (c.m_cycles + n) else fail StepError.cycle_count_overflow)
          (λ _. Counted n)
  unfolding set_m_cycles
  counts n true c e p =
      Triple-total _ _ (λ x. refl) (λ x. refl) (λ x. refl)
        (λ x h. (ap (λ m. m + n) p, λ _. subst (λ m. m + n < u64_limit) p (ltb→lt _ _ e)))
  counts n false c e p = Triple-fail _

  cpu-Triple :
      Triple same (λ x. Reads idle (view x)) cpu (λ c x. (c.m_cycles ≡ start) × Reads idle (view x))
  unfolding cpu
  cpu-Triple = Triple-total _ _ (λ x. refl) (λ x. refl) (λ x. refl) (λ x h. (h, h))

  add_m_cycles-Triple :
      (n : ℕ) → Triple same (λ x. Reads idle (view x)) (add_m_cycles n) (λ _. Counted n)
  unfolding add_m_cycles
  add_m_cycles-Triple n = Triple-bind _ _ cpu-Triple λ c. Triple-given (counts n _ c refl)

  devices-Counted : (n : ℕ) → Keeps same (Counted n) devices
  unfolding devices
  devices-Counted n = Triple-total _ _ (λ x. refl) (λ x. refl) (λ x. refl) (λ x h. h)

  set_devices-Counted : (n : ℕ) (d : Devices) → Keeps same (Counted n) (set_devices d)
  unfolding set_devices
  set_devices-Counted n d = Triple-total _ _ (λ x. refl) (λ x. refl) (λ x. refl) (λ x h. h)

  set_run_state-Counted : (n : ℕ) (r : RunState) → Keeps same (Counted n) (set_run_state r)
  unfolding set_run_state
  set_run_state-Counted n r = Triple-total _ _ (λ x. refl) (λ x. refl) (λ x. refl) (λ x h. h)

  step_body-Counted :
      (s : VmState)
      → Triple same (λ x. Reads idle (view x)) (step_body sha256 s) (λ r. Counted (duration s r))
  step_body-Counted =
      step_body-Triple Reads-Laws Counted (λ x h. (omega (arith, h), λ b. omega (arith, b)))
        add_m_cycles-Triple devices-Counted set_devices-Counted set_run_state-Counted

-- From a counter below 2^64, a step that ends moves the M-cycle counter by exactly the duration of
-- what it did, and keeps it below 2^64.
pub apply-m_cycles :
    (sha256 : List ℕ → List ℕ) (s : VmState) (input : List BusWitness) (a : BusAuthentication)
    (s' : VmState) (e : StepEffects)
    → s.cpu.m_cycles < u64_limit
    → apply sha256 s input a ≡ ok (s', e)
    → (s'.cpu.m_cycles
        ≡ s.cpu.m_cycles
          + duration_of e.kind (increment_of e.instruction.timing e.branch_taken) s.dmg_devices)
      × (s'.cpu.m_cycles < u64_limit)
unfolding duration
apply-m_cycles sha256 s input a s' e small h =
    let r = apply-ok sha256 s input a s' e h in
    let t = (step_body-Counted sha256 s.cpu.m_cycles s).at _ r.0 r.1 refl r.2 in
    let done = finalize-ok sha256 _ r.1 s' r.3 in
    let last = by_authentication-ok sha256 _ _ r.1 s' done.1 in
    let total = ap (λ state. state.cpu.m_cycles) last.2 ∙ t.1.0 in
    (
      total
          ∙ ap
              (λ effects.
                s.cpu.m_cycles
                + duration_of effects.kind
                    (increment_of effects.instruction.timing effects.branch_taken) s.dmg_devices)
              (sym r.4),
      subst (λ n. n < u64_limit) (sym total) (t.1.1 small),
    )
