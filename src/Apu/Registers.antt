-- ===== src/Apu/Registers.antt =====
-- The control registers of crates/zksm83-core/src/dmg/apu.rs: what a write to one of them stores.
use zksm.Prelude.{
  ℕ, zero, suc, ◌+◌, ◌-◌, ◌≤◌, ◌<◌, ◌≡◌, refl, ap, ◌∙◌, sym, ◌⊎◌, inl, inr, ◌≢◌, get_elem?-set_self,
  get_elem?-set_ne, Bool, true, ◌||◌, ◌==◌, ==_iff, Bool-cases, all_below, all_below_sound, some,
  List, [], ◌∷◌, length, get_elem?, set, if◌then◌else◌, bit_and, bit_or, complement, has_bits,
  bit_and-bit_or, bit_or-zero, arith,
}
use zksm.Apu.{
  Apu, read, read_mask, write, written, powered, is_length_register, apply_dac_and_trigger,
  set_register_byte, register_byte, wave_byte,
}
use zksm.Apu.Status.{apply_dac_and_trigger-status}
use zksm.Apu.Shape.{IsValid}

get_elem?-lt : (xs : List ℕ) (i : ℕ) → i < length xs → (v : ℕ) × (get_elem? xs i ≡ some v)
get_elem?-lt [] i h = absurd (omega arith)
get_elem?-lt (x ∷ xs) zero h = (x, refl)
get_elem?-lt (x ∷ xs) (suc i) h = get_elem?-lt xs i (omega arith)

-- A stored byte and the bits that read as one.
abbrev read_back : ℕ → ℕ → Bool
read_back k v =
    let mask = read_mask (0xff10 + k) in bit_or (bit_and v (complement mask)) mask == bit_or v mask

all_read_back : all_below 23 (λ k. all_below 256 (read_back k)) ≡ true
unfolding all_below read_mask
all_read_back = refl

mask-read_back :
    (address v : ℕ)
    → 0xff10 ≤ address
    → address ≤ 0xff26
    → v < 256
    → bit_or (bit_and v (complement (read_mask address))) (read_mask address)
      ≡ bit_or v (read_mask address)
mask-read_back address v lo hi byte =
    let k = address - 0xff10 in
    let row = all_below_sound 23 (λ k. all_below 256 (read_back k)) k all_read_back (omega arith) in
    let same : 0xff10 + k ≡ address = omega arith in
    rw (sym same) ((==_iff _ _).0 (all_below_sound 256 (read_back k) v row byte))

read_control :
    (address v : ℕ) (apu : Apu)
    → 0xff10 ≤ address
    → address ≤ 0xff26
    → get_elem? apu.registers (address - 0xff10) ≡ some v
    → read address apu ≡ some (bit_or v (read_mask address))
unfolding read register_byte
read_control address v apu lo hi found = ground arith

-- The state with one register stored.
abbrev stored : ℕ → ℕ → Apu → Apu
stored address value apu = record apu {
  registers = set apu.registers (address - 0xff10) (bit_and value (complement (read_mask address)));
}

abbrev stores : ℕ → Apu → Bool
stores address apu = powered apu || is_length_register address

written-stored :
    (address value : ℕ) (apu : Apu)
    → IsValid apu
    → 0xff10 ≤ address
    → address ≤ 0xff25
    → written address value apu
      ≡ some (
          if stores address apu
          then apply_dac_and_trigger address value (stored address value apu)
          else apu)
unfolding written set_register_byte
written-stored address value apu valid lo hi =
    let size : length apu.registers ≡ 23 = valid.registers_length in ground arith

-- A byte that stands alike in two states reads alike.
read-same :
    (other : ℕ) (a b : Apu)
    → b.wave_ram ≡ a.wave_ram
    → (other < 0xff10)
      ⊎ (get_elem? b.registers (other - 0xff10) ≡ get_elem? a.registers (other - 0xff10))
    → read other b ≡ read other a
unfolding read register_byte wave_byte
read-same other a b wave place = ground arith

write-some :
    (address value before : ℕ) (apu after : Apu)
    → read address apu ≡ some before
    → written address value apu ≡ some after
    → write address value apu ≡ some (before, after)
unfolding write
write-some address value before apu after r w = rw (r, w) refl

-- A stored byte reads back, and the others read as before.
stored-reads :
    (address value other : ℕ) (apu : Apu)
    → IsValid apu
    → 0xff10 ≤ address
    → address ≤ 0xff25
    → value < 256
    → other ≢ address
    → other ≢ 0xff26
    → (read address (apply_dac_and_trigger address value (stored address value apu))
        ≡ some (bit_or value (read_mask address)))
      × (read other (apply_dac_and_trigger address value (stored address value apu))
          ≡ read other apu)
stored-reads address value other apu valid lo hi byte ne not_status =
    let k = address - 0xff10 in
    let low = bit_and value (complement (read_mask address)) in
    let mid = stored address value apu in
    let after = apply_dac_and_trigger address value mid in
    let status = apply_dac_and_trigger-status address value mid in
    let inside : k < length apu.registers = omega (arith, valid.registers_length) in
    let here : get_elem? after.registers k ≡ some low =
      status.others_same k (λ e. omega arith) ∙ get_elem?-set_self apu.registers k low inside in
    let place : (other < 0xff10) ⊎ (0xff10 ≤ other) = ground arith in
    let there : (other < 0xff10)
        ⊎ (get_elem? after.registers (other - 0xff10) ≡ get_elem? apu.registers (other - 0xff10)) =
      elim place [
        | inl below ↦ inl below
        | inr above ↦ inr (
            status.others_same (other - 0xff10) (λ e. not_status (omega arith))
            ∙ get_elem?-set_ne apu.registers k (other - 0xff10) low (λ e. ne (omega arith)))
      ] in
    (
      read_control address low after lo (omega arith) here
          ∙ ap some (mask-read_back address value lo (omega arith) byte),
      read-same other apu after status.wave_same there,
    )

-- The power bit is read as it stands.
powered-has_bits :
    (apu : Apu) (master : ℕ)
    → IsValid apu
    → read 0xff26 apu ≡ some master
    → powered apu ≡ has_bits master 0x80
unfolding powered register_byte read_mask
powered-has_bits apu master valid reads =
    let found = get_elem?-lt apu.registers 22 (omega (arith, valid.registers_length)) in
    let shown = read_control 0xff26 found.0 apu (omega arith) (omega arith) found.1 in
    let same : bit_or found.0 (read_mask 0xff26) ≡ master = cc (shown, reads) in
    let bit : bit_and master 0x80 ≡ bit_and found.0 0x80 =
      rw (sym same) (bit_and-bit_or found.0 0x70 0x80 ∙ bit_or-zero (bit_and found.0 0x80)) in
    rw (found.1, bit) refl

-- For an APU of 23 registers and 16 bytes of wave RAM, a byte written to an address from 0xff10 to
-- 0xff25 is accepted, and the answer is what the address read before; if bit 7 of what 0xff26
-- reads is set or the address is that of a length register, it then reads as the byte with the
-- bits of its mask set, and else the APU is unchanged; every other address but 0xff26 reads as
-- before.
pub write-control :
    (address value other master : ℕ) (apu : Apu)
    → IsValid apu
    → read 0xff26 apu ≡ some master
    → 0xff10 ≤ address
    → address ≤ 0xff25
    → value < 256
    → other ≢ address
    → other ≢ 0xff26
    → (before : ℕ) × (after : Apu) × (read address apu ≡ some before)
      × (write address value apu ≡ some (before, after))
      × (read address after
          ≡ some (
              if has_bits master 0x80 || is_length_register address
              then bit_or value (read_mask address)
              else before))
      × (read other after ≡ read other apu)
      × ((has_bits master 0x80 || is_length_register address ≡ true) ⊎ (after ≡ apu))
write-control address value other master apu valid reads_master lo hi byte ne not_status =
    let found =
      get_elem?-lt apu.registers (address - 0xff10) (omega (arith, valid.registers_length)) in
    let before = bit_or found.0 (read_mask address) in
    let reads = read_control address found.0 apu lo (omega arith) found.1 in
    let after = apply_dac_and_trigger address value (stored address value apu) in
    let steps : written address value apu
        ≡ some (if has_bits master 0x80 || is_length_register address then after else apu) =
      written-stored address value apu valid lo hi
      ∙ ap (λ b. some (if b || is_length_register address then after else apu))
          (powered-has_bits apu master valid reads_master) in
    let new = stored-reads address value other apu valid lo hi byte ne not_status in
    elim (Bool-cases (has_bits master 0x80 || is_length_register address)) [
      | inl on ↦ (
        before,
        after,
        reads,
        write-some address value before apu after reads
            (steps ∙ ap (λ b. some (if b then after else apu)) on),
        rw on new.0,
        new.1,
        inl on,
      )
      | inr off ↦ (
        before,
        apu,
        reads,
        write-some address value before apu apu reads
            (steps ∙ ap (λ b. some (if b then after else apu)) off),
        rw off reads,
        refl,
        inr refl,
      )
    ]
