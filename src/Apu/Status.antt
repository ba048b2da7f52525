-- ===== src/Apu/Status.antt =====
-- What the channel status of crates/zksm83-core/src/dmg/apu.rs may change: the register at 0xff26.
use zksm.Prelude.{
  ℕ, ◌≡◌, refl, ◌∙◌, sym, ◌≢◌, Bool, true, false, Option, none, some, length, get_elem?, length-set,
  get_elem?-set_ne, if◌then◌else◌,
}
use zksm.Apu.{
  Apu, set_channel_active, apply_dac_and_trigger, update_master, dac_step, trigger_step,
  dac_register_channel, trigger_register_channel,
}

-- The two states differ in the status register at most.
pub record SameButStatus (a b : Apu) : Type 0 where
  pub registers_same : length a.registers ≡ length b.registers
  pub wave_same : a.wave_ram ≡ b.wave_ram
  pub others_same : (i : ℕ) → i ≢ 22 → get_elem? a.registers i ≡ get_elem? b.registers i

unchanged : (a : Apu) → SameButStatus a a
unchanged a = record { registers_same = refl; wave_same = refl; others_same = λ i ne. refl }

through : (a b c : Apu) → SameButStatus a b → SameButStatus b c → SameButStatus a c
through a b c p q = record {
  registers_same = p.registers_same ∙ q.registers_same;
  wave_same = p.wave_same ∙ q.wave_same;
  others_same = λ i ne. p.others_same i ne ∙ q.others_same i ne;
}

-- A property of both branches.
pub either : (P : Apu → Type 0) (test : Bool) (a b : Apu) → P a → P b → P (if test then a else b)
either P true a b p q = p
either P false a b p q = q

pub update_master-status :
    (f : ℕ → ℕ) (apu : Apu) (o : Option ℕ) → SameButStatus (update_master f apu o) apu
update_master-status f apu none = unchanged apu
update_master-status f apu (some m) = record {
  registers_same = length-set apu.registers 22 (f m);
  wave_same = refl;
  others_same = λ i ne. get_elem?-set_ne apu.registers 22 i (f m) (λ e. ne (sym e));
}

set_channel_active-status :
    (c : ℕ) (active : Bool) (apu : Apu) → SameButStatus (set_channel_active c active apu) apu
unfolding set_channel_active
set_channel_active-status c active apu = update_master-status _ apu (get_elem? apu.registers 22)

dac_step-status : (v : ℕ) (o : Option ℕ) (apu : Apu) → SameButStatus (dac_step v o apu) apu
dac_step-status v none apu = unchanged apu
dac_step-status v (some c) apu =
    either (λ x. SameButStatus x apu) _ _ _ (set_channel_active-status c false apu) (unchanged apu)

trigger_step-status : (v : ℕ) (o : Option ℕ) (apu : Apu) → SameButStatus (trigger_step v o apu) apu
trigger_step-status v none apu = unchanged apu
trigger_step-status v (some c) apu =
    either (λ x. SameButStatus x apu) _ _ _ (set_channel_active-status c true apu) (unchanged apu)

pub apply_dac_and_trigger-status :
    (a v : ℕ) (apu : Apu) → SameButStatus (apply_dac_and_trigger a v apu) apu
unfolding apply_dac_and_trigger
apply_dac_and_trigger-status a v apu =
    let dac = dac_step-status v (dac_register_channel a) apu in
    through _ _ apu (trigger_step-status v (trigger_register_channel a) _) (
      either (λ x. SameButStatus x apu) _ _ _
        (through _ _ apu (set_channel_active-status 2 false _) dac) dac)
