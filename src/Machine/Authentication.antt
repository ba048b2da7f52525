-- ===== src/Machine/Authentication.antt =====
-- The Merkle step relation against the lookup step relation
-- (crates/zksm83-core/src/transition.rs, `StepRelation` and `LookupStepRelation`).
use mathlib.Core.Path.{subst}
use zksm.Prelude.{ℕ, ◌≡◌, refl, sym, ap, List, inl, inr, ok, and_then, ok_injective, ◌∙◌}
use zksm.Isa.Types.{DecodedInstruction}
use zksm.Memory.Witness.{RomRead, MemoryRead, MemoryWrite}
use zksm.Machine.State.{VmState}
use zksm.Machine.Bus.{BusWitness, StepEffects}
use zksm.Machine.Executor.{
  Executor, BusAuthentication, pure, cpu, devices, mbc3, profile, input_log, output_log,
  set_registers, set_flags, set_pc, set_sp, set_ime, set_run_state, set_mbc3, set_devices,
  set_input_log, set_output_log, push_event, set_m_cycles,
}
use zksm.Machine.Executor.Access.{authenticate_rom, authenticate_read, authenticate_write}
use zksm.Machine.Transition.{add_m_cycles}
use zksm.Machine.Step.{by_authentication, finalize, finish, effects_of, step_body, apply}
use zksm.Machine.Triple.{Keeps, Triple-bind_kept, Triple-if, Triple-fail, Triple-total, same_result}
use zksm.Machine.Laws.{Phase, idle, Laws}
use zksm.Machine.Laws.Apply.{step_body-Triple}
use zksm.Machine.Laws.Finish.{finalize-ok, with_transcripts-ok, apply-ok}
use zksm.Machine.Laws.Primitives.{
  next-Triple, authenticate_rom-ok, authenticate_read-ok, authenticate_write-ok,
}

-- The state with the commitments of another: what a lookup step leaves alone.
abbrev pub with_commitments : VmState → VmState → VmState
with_commitments state other = record state {
  memory_root = other.memory_root;
  bus_transcript = other.bus_transcript;
  isa_transcript = other.isa_transcript;
}

module _ (sha256 : List ℕ → List ℕ) (start : VmState) where
  -- The executor of the lookup relation beside an executor of the Merkle relation.
  abbrev unchecked : Executor → Executor
  unchecked x = record x {
    state = record x.state { memory_root = start.memory_root };
    authentication = BusAuthentication.lookup;
  }

  -- The transcripts wait for the end of the step.
  abbrev Waits : Phase → Executor → Type 0
  Waits p x =
      (x.state.bus_transcript ≡ start.bus_transcript)
      × (x.state.isa_transcript ≡ start.isa_transcript)

  rom-Triple : (r : RomRead) → Keeps unchecked (Waits idle) (authenticate_rom sha256 r)
  unfolding authenticate_rom pure
  rom-Triple r = record {
    at = λ x a y p h. elim (authenticate_rom-ok sha256 r x a y h) [
      | inl e ↦ (same_result refl (ap unchecked (sym e.1)), subst (Waits idle) (sym e.1) p)
      | inr e ↦ (same_result refl (ap unchecked (sym e.1)), subst (Waits idle) (sym e.1) p)
    ];
  }

  read-Triple : (r : MemoryRead) → Keeps unchecked (Waits idle) (authenticate_read sha256 r)
  unfolding authenticate_read pure
  read-Triple r = record {
    at = λ x a y p h. elim (authenticate_read-ok sha256 r x a y h) [
      | inl e ↦ (same_result refl (ap unchecked (sym e.1)), subst (Waits idle) (sym e.1) p)
      | inr e ↦ (same_result refl (ap unchecked (sym e.1)), subst (Waits idle) (sym e.1) p)
    ];
  }

  write-Triple : (w : MemoryWrite) → Keeps unchecked (Waits idle) (authenticate_write sha256 w)
  unfolding authenticate_write pure
  write-Triple w = record {
    at = λ x a y p h. elim (authenticate_write-ok sha256 w x a y h) [
      | inl e ↦ (same_result refl (ap unchecked (sym e.1)), subst (Waits idle) (sym e.1) p)
      | inr e ↦ (same_result refl (ap unchecked (sym e.2)), subst (Waits idle) (sym e.2) p)
    ];
  }

  unchecked-Laws : Laws sha256 unchecked Waits
  unfolding cpu devices mbc3 profile input_log output_log set_registers set_flags set_pc set_sp
      set_ime set_run_state set_mbc3 set_devices set_input_log set_output_log push_event
  unchecked-Laws = record {
    access = record {
      get_devices = λ p. Triple-total _ _ (λ x. refl) (λ x. refl) (λ x. refl) (λ x h. h);
      get_mbc3 = λ p. Triple-total _ _ (λ x. refl) (λ x. refl) (λ x. refl) (λ x h. h);
      get_profile = λ p. Triple-total _ _ (λ x. refl) (λ x. refl) (λ x. refl) (λ x h. h);
      take = λ request. next-Triple request (λ x. refl) (λ x ws. refl) (λ x w ws e h. h);
      check_rom = rom-Triple;
      check_read = read-Triple;
      check_write = write-Triple;
      check_input = λ v x h. h;
      record_event = λ event w e. Triple-total _ _ (λ x. refl) (λ x. refl) (λ x. refl) (λ x h. h);
      silent_event = λ event e. Triple-total _ _ (λ x. refl) (λ x. refl) (λ x. refl) (λ x h. h);
    };
    get_cpu = λ p. Triple-total _ _ (λ x. refl) (λ x. refl) (λ x. refl) (λ x h. h);
    get_input_log = λ p. Triple-total _ _ (λ x. refl) (λ x. refl) (λ x. refl) (λ x h. h);
    get_output_log = λ p. Triple-total _ _ (λ x. refl) (λ x. refl) (λ x. refl) (λ x h. h);
    put_registers = λ v. Triple-total _ _ (λ x. refl) (λ x. refl) (λ x. refl) (λ x h. h);
    put_flags = λ v. Triple-total _ _ (λ x. refl) (λ x. refl) (λ x. refl) (λ x h. h);
    put_pc = λ v. Triple-total _ _ (λ x. refl) (λ x. refl) (λ x. refl) (λ x h. h);
    put_sp = λ v. Triple-total _ _ (λ x. refl) (λ x. refl) (λ x. refl) (λ x h. h);
    put_ime = λ v. Triple-total _ _ (λ x. refl) (λ x. refl) (λ x. refl) (λ x h. h);
    put_run_state = λ v. Triple-total _ _ (λ x. refl) (λ x. refl) (λ x. refl) (λ x h. h);
    put_mbc3 = λ v. Triple-total _ _ (λ x. refl) (λ x. refl) (λ x. refl) (λ x h. h);
    put_devices = λ v p. Triple-total _ _ (λ x. refl) (λ x. refl) (λ x. refl) (λ x h. h);
    put_input_log = λ v p. Triple-total _ _ (λ x. refl) (λ x. refl) (λ x. refl) (λ x h. h);
    put_output_log = λ v. Triple-total _ _ (λ x. refl) (λ x. refl) (λ x. refl) (λ x h. h);
  }

  add_m_cycles-Waits : (n : ℕ) → Keeps unchecked (Waits idle) (add_m_cycles n)
  unfolding add_m_cycles set_m_cycles
  add_m_cycles-Waits n = Triple-bind_kept _ _ (unchecked-Laws.get_cpu idle) λ c.
      Triple-if _ _ _ (Triple-total _ _ (λ x. refl) (λ x. refl) (λ x. refl) (λ x h. h))
        (Triple-fail _)

  step_body-Waits : (s : VmState) → Keeps unchecked (Waits idle) (step_body sha256 s)
  step_body-Waits s =
      step_body-Triple unchecked-Laws (λ n. Waits idle) (λ x h. h) add_m_cycles-Waits
        (λ n. unchecked-Laws.access.get_devices idle) (λ n d. unchecked-Laws.put_devices d idle)
        (λ n r. unchecked-Laws.put_run_state r) s

  restored : (y : Executor) → Waits idle y → with_commitments y.state start ≡ (unchecked y).state
  restored y p =
      ap
        (λ bus. record y.state {
          memory_root = start.memory_root;
          bus_transcript = bus;
          isa_transcript = start.isa_transcript;
        })
        (sym p.0)
      ∙ ap (λ isa. record y.state { memory_root = start.memory_root; isa_transcript = isa })
          (sym p.1)

  -- What a step that ends keeps of the executor, with the commitments set back.
  finished :
      (a : BusAuthentication) (i : DecodedInstruction) (y : Executor) (s' : VmState)
      → by_authentication sha256 a i y ≡ ok s'
      → Waits idle y
      → with_commitments s' start ≡ (unchecked y).state
  finished BusAuthentication.lookup i y s' h p =
      ap (λ v. with_commitments v start) (sym (ok_injective y.state s' h)) ∙ restored y p
  finished BusAuthentication.merkle i y s' h p =
      ap (λ v. with_commitments v start) (with_transcripts-ok sha256 i y s' h).3 ∙ restored y p

  finalize-unchecked :
      (i : DecodedInstruction) (y : Executor) (s' : VmState)
      → finalize sha256 i y ≡ ok s'
      → Waits idle y
      → finalize sha256 i (unchecked y) ≡ ok (with_commitments s' start)
  unfolding finalize
  finalize-unchecked i y s' h p =
      let r = finalize-ok sha256 i y s' h in
      ap (λ ws. finalize sha256 i (unchecked (record y { witnesses = ws }))) r.0
      ∙ ap ok (sym (finished y.authentication i y s' r.1 p))

-- A step that the Merkle relation takes the lookup relation takes from the same state and
-- witnesses, with the same effects and the same end but for the commitments, which it leaves.
pub apply-lookup :
    (sha256 : List ℕ → List ℕ) (s : VmState) (input : List BusWitness) (s' : VmState)
    (e : StepEffects)
    → apply sha256 s input BusAuthentication.merkle ≡ ok (s', e)
    → apply sha256 s input BusAuthentication.lookup ≡ ok (with_commitments s' s, e)
unfolding apply finish
apply-lookup sha256 s input s' e h =
    let r = apply-ok sha256 s input _ s' e h in
    let t = (step_body-Waits sha256 s s).at _ r.0 r.1 (refl, refl) r.2 in
    ap (λ q. and_then q (λ ran. finish sha256 ran.0 ran.1)) t.0
    ∙ (ap (λ q. and_then q (λ state. ok (state, effects_of r.0 r.1.events)))
          (finalize-unchecked sha256 s r.0.instruction r.1 s' r.3 t.1)
        ∙ ap (λ effects. ok (with_commitments s' s, effects)) (sym r.4))
