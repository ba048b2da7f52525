-- ===== src/Machine/Witnesses.antt =====
-- The witnesses of a step against its events (crates/zksm83-core/src/bus.rs, transition.rs).
use mathlib.Core.Path.{subst}
use zksm.Prelude.{ℕ, ◌≡◌, refl, sym, ap, ◌∙◌, inl, inr, List, [], ◌∷◌, ◌++◌, Option, some, none, ok}
use mathlib.Core.List.{append-nil}
use zksm.Memory.Witness.{RomRead, MemoryRead, MemoryWrite}
use zksm.Machine.State.{VmState}
use zksm.Machine.Bus.{BusWitness, BusEvent, StepEffects}
use zksm.Machine.Executor.{BusAuthentication, set_m_cycles}
use zksm.Machine.Executor.Access.{authenticate_rom, authenticate_read, authenticate_write}
use zksm.Machine.Transition.{add_m_cycles}
use zksm.Machine.Step.{apply, step_body}
use zksm.Machine.Triple.{Keeps, Triple-bind_kept, Triple-if, Triple-fail, Triple-total}
use zksm.Machine.Laws.{Phase, idle, taken, checked, Laws, carries}
use zksm.Machine.Laws.Apply.{step_body-Triple}
use zksm.Machine.Laws.Finish.{apply-ok, finalize-ok}
use zksm.Machine.Laws.Frame.{View, view, same, FrameLaws, frame_laws}
use zksm.Machine.Laws.Primitives.{authenticate_rom-ok, authenticate_read-ok, authenticate_write-ok}

abbrev pub prepend : Option BusWitness → List BusWitness → List BusWitness
prepend none ws = ws
prepend (some w) ws = w ∷ ws

-- The witnesses that events record, in their order.
unfoldable pub carried : List BusEvent → List BusWitness
unfolding carries
carried [] = []
carried (event ∷ events) = prepend (carries event) (carried events)

prepend-append :
    (o : Option BusWitness) (ws vs : List BusWitness) → prepend o ws ++ vs ≡ prepend o (ws ++ vs)
prepend-append none ws vs = refl
prepend-append (some w) ws vs = refl

carried-recorded :
    (events : List BusEvent) (event : BusEvent) (w : BusWitness) (ws : List BusWitness)
    → carries event ≡ some w
    → carried (events ++ (event ∷ [])) ++ ws ≡ carried events ++ (w ∷ ws)
unfolding carried
carried-recorded [] event w ws e = ap (λ o. prepend o [] ++ ws) e
carried-recorded (first ∷ events) event w ws e =
    prepend-append (carries first) _ ws
    ∙ (ap (prepend (carries first)) (carried-recorded events event w ws e)
        ∙ sym (prepend-append (carries first) _ _))

carried-silent :
    (events : List BusEvent) (event : BusEvent)
    → carries event ≡ none
    → carried (events ++ (event ∷ [])) ≡ carried events
unfolding carried
carried-silent [] event e = ap (λ o. prepend o []) e
carried-silent (first ∷ events) event e =
    ap (prepend (carries first)) (carried-silent events event e)

module _ (sha256 : List ℕ → List ℕ) (input : List BusWitness) where
  -- The witnesses recorded, the one at hand and those left are those supplied.
  abbrev Accounts : Phase → View → Type 0
  Accounts idle v = carried v.events ++ v.witnesses ≡ input
  Accounts (taken w) v = carried v.events ++ (w ∷ v.witnesses) ≡ input
  Accounts (checked w) v = carried v.events ++ (w ∷ v.witnesses) ≡ input

  account_rom :
      (r : RomRead)
      → Keeps same (λ x. Accounts (taken (BusWitness.rom r)) (view x)) (authenticate_rom sha256 r)
  account_rom r = record {
    at = λ x a y p h. elim (authenticate_rom-ok sha256 r x a y h) [
      | inl e ↦ (h, subst (λ z. Accounts (taken (BusWitness.rom r)) (view z)) (sym e.1) p)
      | inr e ↦ (h, subst (λ z. Accounts (taken (BusWitness.rom r)) (view z)) (sym e.1) p)
    ];
  }

  account_read :
      (r : MemoryRead)
      → Keeps same
          (λ x. Accounts (taken (BusWitness.memory_read r)) (view x))
          (authenticate_read sha256 r)
  account_read r = record {
    at = λ x a y p h. elim (authenticate_read-ok sha256 r x a y h) [
      | inl e ↦ (h, subst (λ z. Accounts (taken (BusWitness.memory_read r)) (view z)) (sym e.1) p)
      | inr e ↦ (h, subst (λ z. Accounts (taken (BusWitness.memory_read r)) (view z)) (sym e.1) p)
    ];
  }

  account_write :
      (w : MemoryWrite)
      → Keeps same
          (λ x. Accounts (taken (BusWitness.memory_write w)) (view x))
          (authenticate_write sha256 w)
  account_write w = record {
    at = λ x a y p h. elim (authenticate_write-ok sha256 w x a y h) [
      | inl e ↦ (h, subst (λ z. Accounts (taken (BusWitness.memory_write w)) (view z)) (sym e.1) p)
      | inr e ↦ (h, subst (λ z. Accounts (taken (BusWitness.memory_write w)) (view z)) (sym e.2) p)
    ];
  }

  accounts : FrameLaws sha256 Accounts
  accounts = record {
    take = λ v w ws e h. ap (λ l. carried v.events ++ l) (sym e) ∙ h;
    check_rom = account_rom;
    check_read = account_read;
    check_write = account_write;
    check_input = λ b v h. h;
    record_event = λ event w v e h. carried-recorded v.events event w v.witnesses e ∙ h;
    silent_event = λ event v e h. ap (λ l. l ++ v.witnesses) (carried-silent v.events event e) ∙ h;
  }

  Accounts-Laws : Laws sha256 same (λ p x. Accounts p (view x))
  Accounts-Laws = frame_laws sha256 Accounts accounts

  add_m_cycles-Accounts : (n : ℕ) → Keeps same (λ x. Accounts idle (view x)) (add_m_cycles n)
  unfolding add_m_cycles set_m_cycles
  add_m_cycles-Accounts n = Triple-bind_kept _ _ (Accounts-Laws.get_cpu idle) λ c.
      Triple-if _ _ _ (Triple-total _ _ (λ x. refl) (λ x. refl) (λ x. refl) (λ x h. h))
        (Triple-fail _)

  step_body-Accounts : (s : VmState) → Keeps same (λ x. Accounts idle (view x)) (step_body sha256 s)
  step_body-Accounts s =
      step_body-Triple Accounts-Laws (λ n x. Accounts idle (view x)) (λ x h. h)
        add_m_cycles-Accounts (λ n. Accounts-Laws.access.get_devices idle)
        (λ n d. Accounts-Laws.put_devices d idle) (λ n r. Accounts-Laws.put_run_state r) s

-- A step that ends has recorded in its events exactly the witnesses supplied, in their order.
pub apply-carried :
    (sha256 : List ℕ → List ℕ) (s : VmState) (input : List BusWitness) (a : BusAuthentication)
    (s' : VmState) (e : StepEffects)
    → apply sha256 s input a ≡ ok (s', e)
    → carried e.bus_events ≡ input
unfolding carried
apply-carried sha256 s input a s' e h =
    let r = apply-ok sha256 s input a s' e h in
    let t = (step_body-Accounts sha256 input s).at _ r.0 r.1 refl r.2 in
    let done = finalize-ok sha256 _ r.1 s' r.3 in
    ap (λ effects. carried effects.bus_events) r.4
    ∙ (sym (append-nil _) ∙ (ap (λ l. carried r.1.events ++ l) (sym done.0) ∙ t.1))
