-- ===== src/Apu.antt =====
-- The APU's registers, channel status and wave RAM (crates/zksm83-core/src/dmg/apu.rs).
pub mod Status
pub mod Shape
pub mod Registers
use zksm.Prelude.{
  ℕ, ◌+◌, ◌-◌, ◌*◌, ◌≤◌, ◌≡◌, Bool, true, false, not, ◌&&◌, ◌||◌, Option, none, some, List, [], ◌∷◌,
  ltb, leb, ◌==◌, within, if◌then◌else◌, bit_and, bit_or, has_bits, complement, length, get_elem?,
  set, replicate,
}

-- 23 register bytes from 0xff10 on, and 16 bytes of wave RAM from 0xff30 on.
pub record Apu : Type 0 where
  pub registers : List ℕ
  pub wave_ram : List ℕ

abbrev pub empty : Apu
empty = record { registers = replicate 23 0; wave_ram = replicate 16 0 }

abbrev pub dmg_post_boot : Apu
dmg_post_boot = record {
  registers =
      0 ∷ 0x80 ∷ 0xf3 ∷ 0 ∷ 0 ∷ 0 ∷ 0 ∷ 0 ∷ 0 ∷ 0 ∷ 0 ∷ 0 ∷ 0 ∷ 0 ∷ 0 ∷ 0 ∷ 0 ∷ 0 ∷ 0 ∷ 0 ∷ 0x77
      ∷ 0xf3 ∷ 0x81 ∷ [];
  wave_ram = replicate 16 0;
}

abbrev register_start : ℕ
register_start = 0xff10

abbrev register_end : ℕ
register_end = 0xff26

abbrev wave_start : ℕ
wave_start = 0xff30

abbrev wave_end : ℕ
wave_end = 0xff3f

abbrev is_one_of : List ℕ → ℕ → Bool
is_one_of [] x = false
is_one_of (y ∷ ys) x = (x == y) || is_one_of ys x

unfoldable pub read_mask : ℕ → ℕ
read_mask address =
    if address == 0xff10
    then 0x80
    else if is_one_of (0xff11 ∷ 0xff16 ∷ []) address
    then 0x3f
    else if is_one_of (0xff13 ∷ 0xff15 ∷ 0xff18 ∷ 0xff1b ∷ 0xff1d ∷ 0xff1f ∷ 0xff20 ∷ []) address
    then 0xff
    else if is_one_of (0xff14 ∷ 0xff19 ∷ 0xff1e ∷ 0xff23 ∷ []) address
    then 0xbf
    else if address == 0xff1a
    then 0x7f
    else if address == 0xff1c
    then 0x9f
    else if address == 0xff26
    then 0x70
    else 0

abbrev pub is_length_register : ℕ → Bool
is_length_register = is_one_of (0xff11 ∷ 0xff16 ∷ 0xff1b ∷ 0xff20 ∷ [])

unfoldable pub dac_register_channel : ℕ → Option ℕ
dac_register_channel address =
    if address == 0xff12
    then some 0
    else if address == 0xff17
    then some 1
    else if address == 0xff21
    then some 3
    else none

unfoldable pub trigger_register_channel : ℕ → Option ℕ
trigger_register_channel address =
    if address == 0xff14
    then some 0
    else if address == 0xff19
    then some 1
    else if address == 0xff1e
    then some 2
    else if address == 0xff23
    then some 3
    else none

unfoldable pub register_byte : ℕ → Apu → Option ℕ
register_byte address apu =
    if ltb address register_start || ltb register_end address
    then none
    else get_elem? apu.registers (address - register_start)

unfoldable pub set_register_byte : ℕ → ℕ → Apu → Option Apu
set_register_byte address value apu =
    if ltb address register_start
      || (ltb register_end address || leb (length apu.registers) (address - register_start))
    then none
    else some (record apu { registers = set apu.registers (address - register_start) value })

unfoldable pub wave_byte : ℕ → Apu → Option ℕ
wave_byte address apu =
    if ltb address wave_start then none else get_elem? apu.wave_ram (address - wave_start)

unfoldable pub set_wave_byte : ℕ → ℕ → Apu → Option Apu
set_wave_byte address value apu =
    if ltb address wave_start || leb (length apu.wave_ram) (address - wave_start)
    then none
    else some (record apu { wave_ram = set apu.wave_ram (address - wave_start) value })

abbrev stored_or : ℕ → Option ℕ → Option ℕ
stored_or mask none = none
stored_or mask (some stored) = some (bit_or stored mask)

unfoldable pub read : ℕ → Apu → Option ℕ
unfolding read_mask register_byte wave_byte
read address apu =
    if within 0xff27 0xff2f address
    then some 0xff
    else if within wave_start wave_end address
    then wave_byte address apu
    else stored_or (read_mask address) (register_byte address apu)

abbrev is_some_and : Option ℕ → (ℕ → Bool) → Bool
is_some_and none p = false
is_some_and (some v) p = p v

unfoldable pub powered : Apu → Bool
unfolding register_byte
powered apu = is_some_and (register_byte 0xff26 apu) (λ value. has_bits value 0x80)

-- `registers.get_mut(22)`: nothing happens if there is no such byte.
abbrev pub update_master : (ℕ → ℕ) → Apu → Option ℕ → Apu
update_master f apu none = apu
update_master f apu (some master) = record apu { registers = set apu.registers 22 (f master) }

unfoldable pub write_power : ℕ → Apu → Apu
write_power value apu =
    if not (has_bits value 0x80)
    then record apu { registers = replicate (length apu.registers) 0 }
    else update_master (λ master. bit_or master 0x80) apu (get_elem? apu.registers 22)

-- `1_u8 << channel`, for the four channels.
abbrev channel_mask : ℕ → ℕ
channel_mask channel =
    if channel == 0
    then 0x01
    else if channel == 1
    then 0x02
    else if channel == 2
    then 0x04
    else 0x08

unfoldable pub set_channel_active : ℕ → Bool → Apu → Apu
set_channel_active channel active apu =
    update_master
      (λ master.
        if active
        then bit_or master (channel_mask channel)
        else bit_and master (complement (channel_mask channel)))
      apu (get_elem? apu.registers 22)

unfoldable pub channel_dac_enabled : ℕ → Apu → Bool
unfolding register_byte
channel_dac_enabled channel apu =
    let address =
      if channel == 0
      then 0xff12
      else if channel == 1
      then 0xff17
      else if channel == 2
      then 0xff1a
      else 0xff21 in
    is_some_and (register_byte address apu)
      (λ value. if channel == 2 then has_bits value 0x80 else has_bits value 0xf8)

abbrev pub dac_step : ℕ → Option ℕ → Apu → Apu
dac_step value none apu = apu
dac_step value (some channel) apu =
    if not (has_bits value 0xf8) then set_channel_active channel false apu else apu

abbrev pub trigger_step : ℕ → Option ℕ → Apu → Apu
trigger_step value none apu = apu
trigger_step value (some channel) apu =
    if has_bits value 0x80 && channel_dac_enabled channel apu
    then set_channel_active channel true apu
    else apu

unfoldable pub apply_dac_and_trigger : ℕ → ℕ → Apu → Apu
unfolding set_channel_active channel_dac_enabled dac_register_channel trigger_register_channel
apply_dac_and_trigger address value apu =
    let after_dac = dac_step value (dac_register_channel address) apu in
    let after_wave =
      if (address == 0xff1a) && not (has_bits value 0x80)
      then set_channel_active 2 false after_dac
      else after_dac in
    trigger_step value (trigger_register_channel address) after_wave

abbrev pub with_before : Apu → ℕ → Option Apu → Option (ℕ × Apu)
with_before apu before none = none
with_before apu before (some apu') = some (before, apu')

abbrev pub after_store : ℕ → ℕ → Option Apu → Option Apu
after_store address value none = none
after_store address value (some apu) = some (apply_dac_and_trigger address value apu)

-- The state after `write`, once the read of the prior byte has succeeded.
unfoldable pub written : ℕ → ℕ → Apu → Option Apu
unfolding set_wave_byte set_register_byte write_power powered read_mask apply_dac_and_trigger
written address value apu =
    if within 0xff27 0xff2f address
    then some apu
    else if within wave_start wave_end address
    then set_wave_byte address value apu
    else if address == 0xff26
    then some (write_power value apu)
    else if not (powered apu) && not (is_length_register address)
    then some apu
    else after_store address value
        (set_register_byte address (bit_and value (complement (read_mask address))) apu)

abbrev pub write_read : ℕ → ℕ → Apu → Option ℕ → Option (ℕ × Apu)
write_read address value apu none = none
write_read address value apu (some before) = with_before apu before (written address value apu)

unfoldable pub write : ℕ → ℕ → Apu → Option (ℕ × Apu)
unfolding read written
write address value apu = write_read address value apu (read address apu)
