-- ===== src/Machine/Dma.antt =====
-- The steps of OAM DMA (crates/zksm83-core/src/transition.rs, `dma_byte`).
use mathlib.Core.Path.{subst}
use zksm.Prelude.{
  ℕ, suc, ◌-◌, ◌==◌, ◌≡◌, refl, sym, ap, ◌∙◌, inl, inr, List, true, false, ok, arith,
}
use zksm.Devices.State.{Devices}
use zksm.Devices.Lines.{complete_dma_byte}
use zksm.Memory.Witness.{RomRead, MemoryRead, MemoryWrite}
use zksm.Machine.State.{VmState, is_dmg_post_boot_mbc3}
use zksm.Machine.Bus.{BusWitness, StepEffects, StepKind}
use zksm.Machine.Executor.{
  Executor, new_executor, BusAuthentication, devices, mbc3, profile, set_devices, push_event, ◌>>=◌,
}
use zksm.Machine.Executor.Access.{authenticate_rom, authenticate_read, authenticate_write}
use zksm.Machine.Step.{apply, step_body, dmg_step, dma_byte, machine_step}
use zksm.Machine.Triple.{
  Triple, Keeps, Triple-bind, Triple-bind_kept, Triple-total, Triple-pure, Triple-lift,
}
use zksm.Machine.Laws.{AccessLaws}
use zksm.Machine.Laws.Dma.{copy_dma_byte-Triple}
use zksm.Machine.Laws.Finish.{apply-ok, finalize-ok, by_authentication-ok}
use zksm.Machine.Laws.Frame.{same}
use zksm.Machine.Laws.Primitives.{
  next-Triple, authenticate_rom-ok, authenticate_read-ok, authenticate_write-ok,
}

complete_dma_byte-owed : (d : Devices) → (complete_dma_byte d).dma_owed ≡ d.dma_owed - 1
unfolding complete_dma_byte
complete_dma_byte-owed d = ground arith

module _ (sha256 : List ℕ → List ℕ) (s : VmState) where
  -- What DMA reads of the state, and what it must not change.
  abbrev Still : Executor → Type 0
  Still x =
      (x.state.cpu ≡ s.cpu) × (x.state.profile ≡ s.profile) × (x.state.dmg_devices ≡ s.dmg_devices)

  Still-rom : (r : RomRead) → Keeps same Still (authenticate_rom sha256 r)
  Still-rom r = record {
    at = λ x a y p h. elim (authenticate_rom-ok sha256 r x a y h) [
      | inl e ↦ (h, subst Still (sym e.1) p)
      | inr e ↦ (h, subst Still (sym e.1) p)
    ];
  }

  Still-read : (r : MemoryRead) → Keeps same Still (authenticate_read sha256 r)
  Still-read r = record {
    at = λ x a y p h. elim (authenticate_read-ok sha256 r x a y h) [
      | inl e ↦ (h, subst Still (sym e.1) p)
      | inr e ↦ (h, subst Still (sym e.1) p)
    ];
  }

  Still-write : (w : MemoryWrite) → Keeps same Still (authenticate_write sha256 w)
  Still-write w = record {
    at = λ x a y p h. elim (authenticate_write-ok sha256 w x a y h) [
      | inl e ↦ (h, subst Still (sym e.1) p)
      | inr e ↦ (h, subst Still (sym e.2) p)
    ];
  }

  still : AccessLaws sha256 same (λ _. Still)
  unfolding devices mbc3 profile push_event
  still = record {
    get_devices = λ p. Triple-total _ _ (λ x. refl) (λ x. refl) (λ x. refl) (λ x h. h);
    get_mbc3 = λ p. Triple-total _ _ (λ x. refl) (λ x. refl) (λ x. refl) (λ x h. h);
    get_profile = λ p. Triple-total _ _ (λ x. refl) (λ x. refl) (λ x. refl) (λ x h. h);
    take = λ request. next-Triple request (λ x. refl) (λ x ws. refl) (λ x w ws e h. h);
    check_rom = Still-rom;
    check_read = Still-read;
    check_write = Still-write;
    check_input = λ v x h. h;
    record_event = λ event w e. Triple-total _ _ (λ x. refl) (λ x. refl) (λ x. refl) (λ x h. h);
    silent_event = λ event e. Triple-total _ _ (λ x. refl) (λ x. refl) (λ x. refl) (λ x h. h);
  }

  abbrev Paid : VmState → Type 0
  Paid t =
      (t.cpu ≡ s.cpu)
      × (t.profile ≡ s.profile)
      × (t.dmg_devices.dma_owed ≡ s.dmg_devices.dma_owed - 1)

  pays :
      Triple same Still (devices >>= λ d. set_devices (complete_dma_byte d)) (λ _ x. Paid x.state)
  unfolding devices set_devices ◌>>=◌
  pays =
      Triple-total _ _ (λ x. refl) (λ x. refl) (λ x. refl)
        (λ x h.
          (h.0, h.1, complete_dma_byte-owed x.state.dmg_devices ∙ ap (λ d. d.dma_owed - 1) h.2))

  dma_byte-Paid :
      Triple same Still (dma_byte sha256) (λ r x. (r.kind ≡ StepKind.dma_byte) × Paid x.state)
  unfolding dma_byte machine_step
  dma_byte-Paid = Triple-bind _ _ (copy_dma_byte-Triple still pays) λ _.
      Triple-bind_kept _ _ (Triple-lift _ _ (λ a x _ q. q))
        λ marker. Triple-pure _ (λ x q. (refl, q))

  step_body-dma :
      is_dmg_post_boot_mbc3 s.profile ≡ true
      → (s.dmg_devices.dma_owed == 0) ≡ false
      → step_body sha256 s ≡ dma_byte sha256
  unfolding step_body dmg_step
  step_body-dma p q = rw (p, q) refl

  -- While a byte is owed, a step of the DMG profile pays it and leaves the CPU alone.
  pub apply-dma :
      (input : List BusWitness) (a : BusAuthentication) (s' : VmState) (e : StepEffects)
      → is_dmg_post_boot_mbc3 s.profile ≡ true
      → (s.dmg_devices.dma_owed == 0) ≡ false
      → apply sha256 s input a ≡ ok (s', e)
      → Paid s'
  apply-dma input a s' e p q h =
      let r = apply-ok sha256 s input a s' e h in
      let t =
        dma_byte-Paid.at (new_executor s input a) r.0 r.1 (refl, refl, refl)
          (ap (λ m. m (new_executor s input a)) (sym (step_body-dma p q)) ∙ r.2) in
      let done = finalize-ok sha256 _ r.1 s' r.3 in
      let last = by_authentication-ok sha256 _ _ r.1 s' done.1 in subst Paid (sym last.2) t.1.1

-- `n` steps that end, one after the other.
pub data Steps : (List ℕ → List ℕ) → BusAuthentication → ℕ → VmState → VmState → Type 0 where
  here : {sha256 : List ℕ → List ℕ} {a : BusAuthentication} (s : VmState) → Steps sha256 a 0 s s
  after :
      {sha256 : List ℕ → List ℕ} {a : BusAuthentication} (n : ℕ) (s s' t : VmState)
      (input : List BusWitness) (e : StepEffects)
      → apply sha256 s input a ≡ ok (s', e)
      → Steps sha256 a n s' t
      → Steps sha256 a (suc n) s t

-- In a DMG profile, once as many steps have ended as bytes were owed, OAM DMA owes nothing, and
-- the CPU is as before.
pub dma-paid :
    {sha256 : List ℕ → List ℕ} {a : BusAuthentication} (n : ℕ) (s t : VmState)
    → is_dmg_post_boot_mbc3 s.profile ≡ true
    → s.dmg_devices.dma_owed ≡ n
    → Steps sha256 a n s t
    → (t.dmg_devices.dma_owed ≡ 0) × (t.cpu ≡ s.cpu)
dma-paid {sha256 = sha256} n s t p q (Steps.here _) = (q, refl)
dma-paid {sha256 = sha256} {a = a} (suc n) s t p q (Steps.after _ _ s' _ input e h rest) =
    let one = apply-dma sha256 s input a s' e p (ground (arith, q)) h in
    let more =
      dma-paid n s' t (ap is_dmg_post_boot_mbc3 one.1 ∙ p) (omega (arith, one.2, q)) rest in
    (more.0, more.1 ∙ one.0)
