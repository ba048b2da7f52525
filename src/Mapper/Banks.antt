-- ===== src/Mapper/Banks.antt =====
-- The ranges and windows of the mapper of crates/zksm83-core/src/mbc3.rs.
use zksm.Prelude.{ℕ, ◌+◌, ◌*◌, ◌≤◌, ◌<◌, ◌≡◌, ◌↔◌, ◌⊎◌, Bool, true, ok, err, arith, bit_and-le}
use zksm.Mapper.{
  RomSize, rom_256_kib, rom_1_mib, CartridgeProfile, Mapper, ram, max_bank, byte_length,
  MapperError, invalid_rom_bank, invalid_ram_rtc_select, from_profile_parts, map_rom_for,
  external_window_for, apply_control_write_for,
}

-- The ranges of the mapper registers.
pub record IsValid (profile : CartridgeProfile) (m : Mapper) : Type 0 where
  pub bank_pos : 0 < m.rom_bank
  pub bank_le : m.rom_bank ≤ max_bank profile.rom_size
  pub select_le : m.ram_rtc_select ≤ 0x0f

-- from_profile_parts answers with a mapper exactly when the mapper is in range and has the values
-- given, with the error on the ROM bank exactly when the bank given is 0 or above the maximum, and
-- with the error on the selection exactly when the bank is in range and the selection is above
-- 0x0f.
pub from_profile_parts-eq-ok_iff :
    (p : CartridgeProfile) (enabled : Bool) (bank select : ℕ) (m : Mapper) (e : MapperError)
    → ((from_profile_parts p enabled bank select ≡ ok m) ↔ (
        IsValid p m
        × (m.ram_enabled ≡ enabled)
        × (m.rom_bank ≡ bank)
        × (m.ram_rtc_select ≡ select)))
      × ((from_profile_parts p enabled bank select ≡ err e) ↔ (
          ((e ≡ invalid_rom_bank bank) × ((bank ≡ 0) ⊎ (max_bank p.rom_size < bank)))
          ⊎ ((e ≡ invalid_ram_rtc_select select)
              × (0 < bank)
              × (bank ≤ max_bank p.rom_size)
              × (0x0f < select))))
unfolding from_profile_parts
from_profile_parts-eq-ok_iff p enabled bank select m e =
    ((λ h. ground arith, λ v. ground arith), (λ h. ground arith, λ v. ground arith))

max_bank-pos : (s : RomSize) → 0 < max_bank s
unfolding max_bank
max_bank-pos rom_256_kib = omega arith
max_bank-pos rom_1_mib = omega arith

-- Every control write, to whatever address, keeps the mapper registers in range.
pub apply_control_write_for-IsValid :
    (p : CartridgeProfile) (address value : ℕ) (m : Mapper)
    → IsValid p m
    → IsValid p (apply_control_write_for p address value m)
unfolding apply_control_write_for
apply_control_write_for-IsValid p address value m v =
    ground (
      arith,
      bit_and-le value (max_bank p.rom_size),
      bit_and-le value 0x0f,
      max_bank-pos p.rom_size,
    )

-- With the mapper registers in range, a mapped read of the ROM windows stays inside the cartridge
-- image.
pub map_rom_for-lt :
    (p : CartridgeProfile) (address : ℕ) (m : Mapper)
    → IsValid p m
    → address < 0x8000
    → map_rom_for m p address < byte_length p.rom_size
unfolding map_rom_for byte_length max_bank
map_rom_for-lt p address m v h = ground arith

-- Two reads of the switchable ROM window that meet in the image are one read of one bank.
pub map_rom_for_injective :
    (p q : CartridgeProfile) (a b : ℕ) (m n : Mapper)
    → 0x4000 ≤ a
    → a < 0x8000
    → 0x4000 ≤ b
    → b < 0x8000
    → map_rom_for m p a ≡ map_rom_for n q b
    → (a ≡ b) × (m.rom_bank ≡ n.rom_bank)
unfolding map_rom_for
map_rom_for_injective p q a b m n ha ha' hb hb' e = ground arith

ram_parts :
    (p : CartridgeProfile) (a x : ℕ) (m : Mapper)
    → external_window_for m p a ≡ ram x
    → (m.ram_enabled ≡ true)
      × (0xa000 ≤ a)
      × (a ≤ 0xbfff)
      × (m.ram_rtc_select ≤ 3)
      × (x + 0xa000 ≡ 0x10000 + m.ram_rtc_select * 0x2000 + a)
unfolding external_window_for
ram_parts p a x m e = ground arith

-- An access that reaches cartridge RAM reaches a byte of the four banks above the CPU address
-- space with RAM enabled, and no other bank or address reaches the same byte.
pub external_window_for-ram :
    (p q : CartridgeProfile) (a b x : ℕ) (m n : Mapper)
    → external_window_for m p a ≡ ram x
    → external_window_for n q b ≡ ram x
    → (0x10000 ≤ x)
      × (x < 0x18000)
      × (m.ram_enabled ≡ true)
      × (a ≡ b)
      × (m.ram_rtc_select ≡ n.ram_rtc_select)
unfolding external_window_for
external_window_for-ram p q a b x m n e f = ground (arith, ram_parts p a x m e, ram_parts q b x n f)
