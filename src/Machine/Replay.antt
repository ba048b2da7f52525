-- ===== src/Machine/Replay.antt =====
-- The memory commitment of a step against its events (crates/zksm83-core/src/bus.rs).
use mathlib.Core.Path.{subst, fun_ext}
use zksm.Prelude.{
  ℕ, ◌≡◌, refl, sym, ap, ◌∙◌, inl, inr, List, [], ◌∷◌, ◌++◌, Option, some, none, Result, ok, err,
}
use zksm.Memory.Hash.{CommitmentRoot}
use zksm.Memory.Witness.{
  RomRead, MemoryRead, MemoryWrite, verify_rom_read, verify_read, verify_write,
}
use zksm.Machine.State.{VmState}
use zksm.Machine.Bus.{BusWitness, BusEvent, StepEffects}
use zksm.Machine.Executor.{BusAuthentication, set_m_cycles}
use zksm.Machine.Executor.Access.{authenticate_rom, authenticate_read, authenticate_write}
use zksm.Machine.Transition.{add_m_cycles}
use zksm.Machine.Step.{apply, step_body}
use zksm.Machine.Triple.{Triple, Keeps, Triple-bind_kept, Triple-if, Triple-fail, Triple-total}
use zksm.Machine.Laws.{Phase, idle, taken, checked, Laws, carries}
use zksm.Machine.Laws.Apply.{step_body-Triple}
use zksm.Machine.Laws.Finish.{apply-ok, finalize-ok, by_authentication-ok}
use zksm.Machine.Laws.Frame.{View, view, same, FrameLaws, frame_laws}
use zksm.Machine.Laws.Primitives.{authenticate_rom-ok, authenticate_read-ok, authenticate_write-ok}

abbrev pub kept : {E : Type 0} → Result {0} E Unit → CommitmentRoot → Option CommitmentRoot
kept (ok _) root = some root
kept (err _) root = none

abbrev pub written : {E : Type 0} → Result E CommitmentRoot → Option CommitmentRoot
written (ok root) = some root
written (err _) = none

abbrev pub bind :
    Option CommitmentRoot → (CommitmentRoot → Option CommitmentRoot) → Option CommitmentRoot
bind none k = none
bind (some root) k = k root

module _ (sha256 : List ℕ → List ℕ) (rom_root : CommitmentRoot) where
  -- The memory root after a witness, if it verifies.
  unfoldable pub replay_witness : BusWitness → CommitmentRoot → Option CommitmentRoot
  replay_witness (BusWitness.rom r) root = kept (verify_rom_read sha256 rom_root r) root
  replay_witness (BusWitness.memory_read r) root = kept (verify_read sha256 root r) root
  replay_witness (BusWitness.memory_write w) root = written (verify_write sha256 root w)
  replay_witness (BusWitness.input_byte b) root = some root

  abbrev pub replay_carried : Option BusWitness → CommitmentRoot → Option CommitmentRoot
  replay_carried none root = some root
  replay_carried (some w) root = replay_witness w root

  -- The memory root after events, every witness of theirs verified against the root before it.
  unfoldable pub replay : List BusEvent → CommitmentRoot → Option CommitmentRoot
  unfolding carries replay_witness
  replay [] root = some root
  replay (event ∷ events) root = bind (replay_carried (carries event) root) (replay events)

  bind-some : (o : Option CommitmentRoot) → bind o some ≡ o
  bind-some none = refl
  bind-some (some root) = refl

  bind_assoc :
      (o : Option CommitmentRoot) (k l : CommitmentRoot → Option CommitmentRoot)
      → bind o (λ root. bind (k root) l) ≡ bind (bind o k) l
  bind_assoc none k l = refl
  bind_assoc (some root) k l = refl

  replay-snoc :
      (events : List BusEvent) (event : BusEvent) (root : CommitmentRoot)
      → replay (events ++ (event ∷ [])) root
        ≡ bind (replay events root) (replay_carried (carries event))
  unfolding replay
  replay-snoc [] event root = bind-some _
  replay-snoc (first ∷ events) event root =
      ap (bind (replay_carried (carries first) root)) (fun_ext (replay-snoc events event))
      ∙ bind_assoc (replay_carried (carries first) root) (replay events) _

  module _ (memory_root : CommitmentRoot) where
    abbrev Replays : View → Type 0
    Replays v =
        (v.authentication ≡ BusAuthentication.merkle)
        × (v.rom_root ≡ rom_root)
        × (replay v.events memory_root ≡ some v.memory_root)

    -- A write at hand has moved the root already.
    abbrev Moves : BusWitness → View → Type 0
    Moves w v =
        (v.authentication ≡ BusAuthentication.merkle)
        × (v.rom_root ≡ rom_root)
        × (bind (replay v.events memory_root) (replay_witness w) ≡ some v.memory_root)

    abbrev Authentic : Phase → View → Type 0
    Authentic idle v = Replays v
    Authentic (taken w) v = Replays v
    Authentic (checked w) v = Moves w v

    unlike :
        {b : BusAuthentication} → b ≡ BusAuthentication.merkle → b ≡ BusAuthentication.lookup → ⊥
    unlike p q = cc

    replayed :
        (w : BusWitness) (v : View) (root : CommitmentRoot)
        → replay v.events memory_root ≡ some v.memory_root
        → replay_witness w v.memory_root ≡ some root
        → bind (replay v.events memory_root) (replay_witness w) ≡ some root
    replayed w v root p q = ap (λ o. bind o (replay_witness w)) p ∙ q

    authentic_rom :
        (r : RomRead)
        → Triple same
            (λ x. Replays (view x))
            (authenticate_rom sha256 r)
            (λ _ x. Moves (BusWitness.rom r) (view x))
    unfolding replay_witness
    authentic_rom r = record {
      at = λ x a y p h. elim (authenticate_rom-ok sha256 r x a y h) [
        | inl e ↦ absurd (unlike p.0 e.0)
        | inr e ↦ (
          h,
          subst (λ z. Moves (BusWitness.rom r) (view z)) (sym e.1)
              (
                p.0,
                p.1,
                replayed (BusWitness.rom r) (view x) _ p.2 (
                    ap (λ root. kept (verify_rom_read sha256 root r) x.state.memory_root) (sym p.1)
                    ∙ ap (λ q. kept q x.state.memory_root) e.0),
              ),
        )
      ];
    }

    authentic_read :
        (r : MemoryRead)
        → Triple same
            (λ x. Replays (view x))
            (authenticate_read sha256 r)
            (λ _ x. Moves (BusWitness.memory_read r) (view x))
    unfolding replay_witness
    authentic_read r = record {
      at = λ x a y p h. elim (authenticate_read-ok sha256 r x a y h) [
        | inl e ↦ absurd (unlike p.0 e.0)
        | inr e ↦ (
          h,
          subst (λ z. Moves (BusWitness.memory_read r) (view z)) (sym e.1)
              (
                p.0,
                p.1,
                replayed (BusWitness.memory_read r) (view x) _ p.2
                    (ap (λ q. kept q x.state.memory_root) e.0),
              ),
        )
      ];
    }

    authentic_write :
        (w : MemoryWrite)
        → Triple same
            (λ x. Replays (view x))
            (authenticate_write sha256 w)
            (λ _ x. Moves (BusWitness.memory_write w) (view x))
    unfolding replay_witness
    authentic_write w = record {
      at = λ x a y p h. elim (authenticate_write-ok sha256 w x a y h) [
        | inl e ↦ absurd (unlike p.0 e.0)
        | inr e ↦ (
          h,
          subst (λ z. Moves (BusWitness.memory_write w) (view z)) (sym e.2)
              (p.0, p.1, replayed (BusWitness.memory_write w) (view x) e.0 p.2 (ap written e.1)),
        )
      ];
    }

    authentic : FrameLaws sha256 Authentic
    unfolding replay_witness
    authentic = record {
      take = λ v w ws e h. h;
      check_rom = authentic_rom;
      check_read = authentic_read;
      check_write = authentic_write;
      check_input = λ b v h. (h.0, h.1, replayed (BusWitness.input_byte b) v _ h.2 refl);
      record_event = λ event w v e h. (
        h.0,
        h.1,
        replay-snoc v.events event memory_root
            ∙ (ap (λ o. bind (replay v.events memory_root) (replay_carried o)) e ∙ h.2),
      );
      silent_event = λ event v e h. (
        h.0,
        h.1,
        replay-snoc v.events event memory_root
            ∙ (ap (λ o. bind (replay v.events memory_root) (replay_carried o)) e
                ∙ (bind-some _ ∙ h.2)),
      );
    }

    Authentic-Laws : Laws sha256 same (λ p x. Authentic p (view x))
    Authentic-Laws = frame_laws sha256 Authentic authentic

    add_m_cycles-Replays : (n : ℕ) → Keeps same (λ x. Replays (view x)) (add_m_cycles n)
    unfolding add_m_cycles set_m_cycles
    add_m_cycles-Replays n = Triple-bind_kept _ _ (Authentic-Laws.get_cpu idle) λ c.
        Triple-if _ _ _ (Triple-total _ _ (λ x. refl) (λ x. refl) (λ x. refl) (λ x h. h))
          (Triple-fail _)

    step_body-Replays : (s : VmState) → Keeps same (λ x. Replays (view x)) (step_body sha256 s)
    step_body-Replays s =
        step_body-Triple Authentic-Laws (λ n x. Replays (view x)) (λ x h. h) add_m_cycles-Replays
          (λ n. Authentic-Laws.access.get_devices idle) (λ n d. Authentic-Laws.put_devices d idle)
          (λ n r. Authentic-Laws.put_run_state r) s

-- The events of a Merkle step, replayed from the memory root before it with every witness verified
-- against the root at its turn, lead to the memory root after it.
pub apply-replay :
    (sha256 : List ℕ → List ℕ) (s : VmState) (input : List BusWitness) (s' : VmState)
    (e : StepEffects)
    → apply sha256 s input BusAuthentication.merkle ≡ ok (s', e)
    → replay sha256 s.rom_root e.bus_events s.memory_root ≡ some s'.memory_root
unfolding replay
apply-replay sha256 s input s' e h =
    let r = apply-ok sha256 s input _ s' e h in
    let t =
      (step_body-Replays sha256 s.rom_root s.memory_root s).at _ r.0 r.1 (refl, refl, refl) r.2 in
    let done = finalize-ok sha256 _ r.1 s' r.3 in
    let last = by_authentication-ok sha256 _ _ r.1 s' done.1 in
    ap (λ effects. replay sha256 s.rom_root effects.bus_events s.memory_root) r.4
    ∙ (t.1.2 ∙ ap (λ state. some state.memory_root) (sym last.2))
