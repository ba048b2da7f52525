-- ===== src/Apu/Shape.antt =====
-- The ranges and the wave RAM of the APU of crates/zksm83-core/src/dmg/apu.rs.
use zksm.Prelude.{
  ℕ, ◌-◌, ◌≤◌, ◌<◌, ◌≡◌, refl, ap, ◌∙◌, sym, ◌⊎◌, inl, inr, ◌≢◌, get_elem?-set_self,
  get_elem?-set_ne, Bool, true, false, Option, none, some, length, get_elem?, set, length-set,
  length-replicate, if◌then◌else◌, arith,
}
use zksm.Apu.{
  Apu, read, write, written, write_power, apply_dac_and_trigger, set_register_byte, set_wave_byte,
  with_before, write_read, wave_byte, register_byte, after_store,
}
use zksm.Apu.Status.{SameButStatus, either, update_master-status, apply_dac_and_trigger-status}

pub record IsValid (apu : Apu) : Type 0 where
  pub registers_length : length apu.registers ≡ 23
  pub wave_length : length apu.wave_ram ≡ 16

-- The two states hold as many bytes.
record HasSameShape (a b : Apu) : Type 0 where
  registers_same : length a.registers ≡ length b.registers
  wave_same : length a.wave_ram ≡ length b.wave_ram

unchanged : (a : Apu) → HasSameShape a a
unchanged a = record { registers_same = refl; wave_same = refl }

through : (a b c : Apu) → HasSameShape a b → HasSameShape b c → HasSameShape a c
through a b c p q = record {
  registers_same = p.registers_same ∙ q.registers_same;
  wave_same = p.wave_same ∙ q.wave_same;
}

but_status-shape : (a b : Apu) → SameButStatus a b → HasSameShape a b
but_status-shape a b s = record {
  registers_same = s.registers_same;
  wave_same = ap length s.wave_same;
}

write_power-shape : (v : ℕ) (apu : Apu) → HasSameShape (write_power v apu) apu
unfolding write_power
write_power-shape v apu =
    either (λ x. HasSameShape x apu) _ _ _
      (record { registers_same = length-replicate (length apu.registers) 0; wave_same = refl })
      (but_status-shape _ apu (update_master-status _ apu (get_elem? apu.registers 22)))

set_register_byte-shape :
    (a v : ℕ) (apu b : Apu) → set_register_byte a v apu ≡ some b → HasSameShape b apu
unfolding set_register_byte
set_register_byte-shape a v apu b h = ground (arith, length-set apu.registers (a - 0xff10) v)

set_wave_byte-shape : (a v : ℕ) (apu b : Apu) → set_wave_byte a v apu ≡ some b → HasSameShape b apu
unfolding set_wave_byte
set_wave_byte-shape a v apu b h = ground (arith, length-set apu.wave_ram (a - 0xff30) v)

after_store-shape :
    (a v : ℕ) (o : Option Apu) (apu b : Apu)
    → ((c : Apu) → o ≡ some c → HasSameShape c apu)
    → after_store a v o ≡ some b
    → HasSameShape b apu
after_store-shape a v none apu b h e = absurd (cc e)
after_store-shape a v (some c) apu b h e =
    let done : apply_dac_and_trigger a v c ≡ b = cc e in
    rw (sym done)
      (through _ _ apu (but_status-shape _ c (apply_dac_and_trigger-status a v c)) (h c refl))

chosen :
    (test : Bool) (x y : Option Apu) (apu b : Apu)
    → (x ≡ some b → HasSameShape b apu)
    → (y ≡ some b → HasSameShape b apu)
    → (if test then x else y) ≡ some b
    → HasSameShape b apu
chosen true x y apu b p q e = p e
chosen false x y apu b p q e = q e

is_some-shape : (a b c : Apu) → HasSameShape a c → some a ≡ some b → HasSameShape b c
is_some-shape a b c s e = let done : a ≡ b = cc e in rw (sym done) s

written-shape : (a v : ℕ) (apu b : Apu) → written a v apu ≡ some b → HasSameShape b apu
unfolding written
written-shape a v apu b h =
    chosen _ _ _ apu b (is_some-shape apu b apu (unchanged apu))
      (chosen _ _ _ apu b (set_wave_byte-shape a v apu b) (
        chosen _ _ _ apu b (is_some-shape _ b apu (write_power-shape v apu)) (
          chosen _ _ _ apu b (is_some-shape apu b apu (unchanged apu))
            (after_store-shape a v _ apu b (set_register_byte-shape a _ apu)))))
      h

with_before-written :
    (a v before x : ℕ) (o : Option Apu) (apu b : Apu)
    → with_before apu x o ≡ some (before, b)
    → o ≡ some b
with_before-written a v before x none apu b h = absurd (cc h)
with_before-written a v before x (some c) apu b h = cc h

write_read-written :
    (a v before : ℕ) (o : Option ℕ) (apu b : Apu)
    → write_read a v apu o ≡ some (before, b)
    → written a v apu ≡ some b
write_read-written a v before none apu b h = absurd (cc h)
write_read-written a v before (some x) apu b h =
    with_before-written a v before x (written a v apu) apu b h

write-written :
    (a v before : ℕ) (apu b : Apu) → write a v apu ≡ some (before, b) → written a v apu ≡ some b
unfolding write
write-written a v before apu b h = write_read-written a v before (read a apu) apu b h

-- Every accepted APU write keeps 23 registers and 16 bytes of wave RAM.
pub write-IsValid :
    (address value before : ℕ) (apu after : Apu)
    → IsValid apu
    → write address value apu ≡ some (before, after)
    → IsValid after
write-IsValid address value before apu after v h =
    let s =
      written-shape address value apu after (write-written address value before apu after h) in
    record {
      registers_length = s.registers_same ∙ v.registers_length;
      wave_length = s.wave_same ∙ v.wave_length;
    }

wave_written :
    (a v : ℕ) (apu b : Apu)
    → 0xff30 ≤ a
    → a ≤ 0xff3f
    → written a v apu ≡ some b
    → (b.registers ≡ apu.registers)
      × (b.wave_ram ≡ set apu.wave_ram (a - 0xff30) v)
      × (a - 0xff30 < length apu.wave_ram)
unfolding written set_wave_byte
wave_written a v apu b lo hi h = ground arith

read_wave :
    (a : ℕ) (apu : Apu) → 0xff30 ≤ a → a ≤ 0xff3f → read a apu ≡ get_elem? apu.wave_ram (a - 0xff30)
unfolding read wave_byte
read_wave a apu lo hi = ground arith

read_register :
    (a : ℕ) (apu b : Apu)
    → (a < 0xff30) ⊎ (0xff3f < a)
    → b.registers ≡ apu.registers
    → read a b ≡ read a apu
unfolding read register_byte
read_register a apu b out same = ground (arith, same)

-- A byte that an accepted write puts into wave RAM is read back.
pub write-wave_self :
    (address value before : ℕ) (apu after : Apu)
    → 0xff30 ≤ address
    → address ≤ 0xff3f
    → write address value apu ≡ some (before, after)
    → read address after ≡ some value
write-wave_self address value before apu after lo hi h =
    let w =
      wave_written address value apu after lo hi (write-written address value before apu after h) in
    rw (read_wave address after lo hi, w.1)
      (get_elem?-set_self apu.wave_ram (address - 0xff30) value w.2)

-- An accepted write to wave RAM changes no other byte that the APU reads.
pub write-wave_ne :
    (address value before other : ℕ) (apu after : Apu)
    → 0xff30 ≤ address
    → address ≤ 0xff3f
    → write address value apu ≡ some (before, after)
    → other ≢ address
    → read other after ≡ read other apu
write-wave_ne address value before other apu after lo hi h ne =
    let w =
      wave_written address value apu after lo hi (write-written address value before apu after h) in
    let place : (((other < 0xff30) ⊎ (0xff3f < other)) ⊎ ((0xff30 ≤ other) × (other ≤ 0xff3f))) =
      ground arith in
    elim place [
      | inl out ↦ read_register other apu after out w.0
      | inr inside ↦
          rw (read_wave other after inside.0 inside.1, read_wave other apu inside.0 inside.1, w.1)
            (get_elem?-set_ne apu.wave_ram (address - 0xff30) (other - 0xff30) value (omega arith))
    ]
