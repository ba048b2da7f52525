-- ===== src/Machine/Laws/Frame.antt =====
-- Laws for properties that look at few fields of the executor (crates/zksm83-core/src/bus.rs).
use zksm.Prelude.{ℕ, ◌≡◌, refl, List, [], ◌∷◌, ◌++◌, some, none}
use zksm.Memory.Hash.{CommitmentRoot}
use zksm.Memory.Witness.{RomRead, MemoryRead, MemoryWrite}
use zksm.Machine.Bus.{BusWitness, BusEvent}
use zksm.Machine.Executor.{
  Executor, BusAuthentication, cpu, devices, mbc3, profile, input_log, output_log, set_registers,
  set_flags, set_pc, set_sp, set_ime, set_run_state, set_mbc3, set_devices, set_input_log,
  set_output_log, push_event,
}
use zksm.Machine.Executor.Access.{authenticate_rom, authenticate_read, authenticate_write}
use zksm.Machine.Triple.{Triple, Triple-total}
use zksm.Machine.Laws.{Phase, idle, taken, checked, Laws, carries}
use zksm.Machine.Laws.Primitives.{next-Triple}

pub record View : Type 0 where
  pub witnesses : List BusWitness
  pub events : List BusEvent
  pub authentication : BusAuthentication
  pub rom_root : CommitmentRoot
  pub memory_root : CommitmentRoot
  pub m_cycles : ℕ

abbrev pub view : Executor → View
view x = record {
  witnesses = x.witnesses;
  events = x.events;
  authentication = x.authentication;
  rom_root = x.state.rom_root;
  memory_root = x.state.memory_root;
  m_cycles = x.state.cpu.m_cycles;
}

-- The executor itself: no second run.
abbrev pub same : Executor → Executor
same x = x

module _ (sha256 : List ℕ → List ℕ) (G : Phase → View → Type 0) where
  -- What is left to show of a property of the view.
  pub record FrameLaws : Type 0 where
    pub take :
        (v : View) (w : BusWitness) (ws : List BusWitness)
        → v.witnesses ≡ w ∷ ws
        → G idle v
        → G (taken w) (record v { witnesses = ws })
    pub check_rom :
        (r : RomRead)
        → Triple same
            (λ x. G (taken (BusWitness.rom r)) (view x))
            (authenticate_rom sha256 r)
            (λ _ x. G (checked (BusWitness.rom r)) (view x))
    pub check_read :
        (r : MemoryRead)
        → Triple same
            (λ x. G (taken (BusWitness.memory_read r)) (view x))
            (authenticate_read sha256 r)
            (λ _ x. G (checked (BusWitness.memory_read r)) (view x))
    pub check_write :
        (w : MemoryWrite)
        → Triple same
            (λ x. G (taken (BusWitness.memory_write w)) (view x))
            (authenticate_write sha256 w)
            (λ _ x. G (checked (BusWitness.memory_write w)) (view x))
    pub check_input :
        (b : ℕ) (v : View)
        → G (taken (BusWitness.input_byte b)) v
        → G (checked (BusWitness.input_byte b)) v
    pub record_event :
        (event : BusEvent) (w : BusWitness) (v : View)
        → carries event ≡ some w
        → G (checked w) v
        → G idle (record v { events = v.events ++ (event ∷ []) })
    pub silent_event :
        (event : BusEvent) (v : View)
        → carries event ≡ none
        → G idle v
        → G idle (record v { events = v.events ++ (event ∷ []) })

  pub frame_laws : FrameLaws → Laws sha256 same (λ p x. G p (view x))
  unfolding cpu devices mbc3 profile input_log output_log set_registers set_flags set_pc set_sp
      set_ime set_run_state set_mbc3 set_devices set_input_log set_output_log push_event
  frame_laws laws = record {
    access = record {
      get_devices = λ p. Triple-total _ _ (λ x. refl) (λ x. refl) (λ x. refl) (λ x h. h);
      get_mbc3 = λ p. Triple-total _ _ (λ x. refl) (λ x. refl) (λ x. refl) (λ x h. h);
      get_profile = λ p. Triple-total _ _ (λ x. refl) (λ x. refl) (λ x. refl) (λ x h. h);
      take = λ request.
          next-Triple request (λ x. refl) (λ x ws. refl)
            (λ x w ws e h. laws.take (view x) w ws e h);
      check_rom = laws.check_rom;
      check_read = laws.check_read;
      check_write = laws.check_write;
      check_input = λ v x h. laws.check_input v (view x) h;
      record_event = λ event w e.
          Triple-total _ _ (λ x. refl) (λ x. refl) (λ x. refl)
            (λ x h. laws.record_event event w (view x) e h);
      silent_event = λ event e.
          Triple-total _ _ (λ x. refl) (λ x. refl) (λ x. refl)
            (λ x h. laws.silent_event event (view x) e h);
    };
    get_cpu = λ p. Triple-total _ _ (λ x. refl) (λ x. refl) (λ x. refl) (λ x h. h);
    get_input_log = λ p. Triple-total _ _ (λ x. refl) (λ x. refl) (λ x. refl) (λ x h. h);
    get_output_log = λ p. Triple-total _ _ (λ x. refl) (λ x. refl) (λ x. refl) (λ x h. h);
    put_registers = λ v. Triple-total _ _ (λ x. refl) (λ x. refl) (λ x. refl) (λ x h. h);
    put_flags = λ v. Triple-total _ _ (λ x. refl) (λ x. refl) (λ x. refl) (λ x h. h);
    put_pc = λ v. Triple-total _ _ (λ x. refl) (λ x. refl) (λ x. refl) (λ x h. h);
    put_sp = λ v. Triple-total _ _ (λ x. refl) (λ x. refl) (λ x. refl) (λ x h. h);
    put_ime = λ v. Triple-total _ _ (λ x. refl) (λ x. refl) (λ x. refl) (λ x h. h);
    put_run_state = λ v. Triple-total _ _ (λ x. refl) (λ x. refl) (λ x. refl) (λ x h. h);
    put_mbc3 = λ v. Triple-total _ _ (λ x. refl) (λ x. refl) (λ x. refl) (λ x h. h);
    put_devices = λ v p. Triple-total _ _ (λ x. refl) (λ x. refl) (λ x. refl) (λ x h. h);
    put_input_log = λ v p. Triple-total _ _ (λ x. refl) (λ x. refl) (λ x. refl) (λ x h. h);
    put_output_log = λ v. Triple-total _ _ (λ x. refl) (λ x. refl) (λ x. refl) (λ x h. h);
  }
