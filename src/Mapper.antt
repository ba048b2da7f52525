-- ===== src/Mapper.antt =====
-- The MBC3 mapper (crates/zksm83-core/src/mbc3.rs).
pub mod Banks
use zksm.Prelude.{
  ℕ, ◌+◌, ◌-◌, ◌*◌, ◌%◌, Bool, true, false, not, ◌&&◌, ◌||◌, Option, none, some, Result, ok, err,
  ltb, leb, ◌==◌, within, if◌then◌else◌, bit_and,
}

-- `Mbc3RomSize` and `Mbc3RtcMode`
pub data RomSize : Type 0 where
  rom_256_kib rom_1_mib : RomSize

pub data RtcMode : Type 0 where
  no_rtc rtc_capable : RtcMode

unfoldable pub byte_length : RomSize → ℕ
byte_length rom_256_kib = 256 * 1024
byte_length rom_1_mib = 1024 * 1024

unfoldable pub max_bank : RomSize → ℕ
max_bank rom_256_kib = 0x0f
max_bank rom_1_mib = 0x3f

pub record CartridgeProfile : Type 0 where
  pub rom_size : RomSize
  pub rtc : RtcMode

abbrev pub one_mib_no_rtc : CartridgeProfile
one_mib_no_rtc = record { rom_size = rom_1_mib; rtc = no_rtc }

pub data ExternalWindow : Type 0 where
  ram : ℕ → ExternalWindow
  rtc_register : ℕ → ExternalWindow
  unavailable : ExternalWindow

-- `Mbc3State`
pub record Mapper : Type 0 where
  pub ram_enabled : Bool
  pub rom_bank : ℕ
  pub ram_rtc_select : ℕ

abbrev pub profile_initial : Mapper
profile_initial = record { ram_enabled = false; rom_bank = 1; ram_rtc_select = 0 }

-- `Mbc3StateError`
pub data MapperError : Type 0 where
  invalid_rom_bank invalid_ram_rtc_select : ℕ → MapperError

unfoldable pub from_profile_parts : CartridgeProfile → Bool → ℕ → ℕ → Result MapperError Mapper
unfolding max_bank
from_profile_parts profile enabled bank select =
    if (bank == 0) || ltb (max_bank profile.rom_size) bank
    then err (invalid_rom_bank bank)
    else if ltb 0x0f select
    then err (invalid_ram_rtc_select select)
    else ok (record { ram_enabled = enabled; rom_bank = bank; ram_rtc_select = select })

abbrev rom_bank_bytes : ℕ
rom_bank_bytes = 0x4000

abbrev sram_physical_base : ℕ
sram_physical_base = 0x10000

abbrev sram_bank_bytes : ℕ
sram_bank_bytes = 0x2000

unfoldable pub map_rom_for : Mapper → CartridgeProfile → ℕ → ℕ
map_rom_for m _ address =
    if ltb address 0x4000
    then address
    else (m.rom_bank * rom_bank_bytes + (address - rom_bank_bytes))

abbrev is_rtc_capable : RtcMode → Bool
is_rtc_capable no_rtc = false
is_rtc_capable rtc_capable = true

unfoldable pub external_window_for : Mapper → CartridgeProfile → ℕ → ExternalWindow
external_window_for m profile address =
    if not m.ram_enabled || not (within 0xa000 0xbfff address)
    then unavailable
    else if leb m.ram_rtc_select 3
    then ram (sram_physical_base + m.ram_rtc_select * sram_bank_bytes + (address - 0xa000))
    else if is_rtc_capable profile.rtc && within 0x08 0x0c m.ram_rtc_select
    then rtc_register m.ram_rtc_select
    else unavailable

abbrev selected_bank : ℕ → ℕ
selected_bank selected = if selected == 0 then 1 else selected

-- The arms of the source's match cover 0x0000..=0x1fff, ..=0x3fff, ..=0x5fff, and the rest.
unfoldable pub apply_control_write_for : CartridgeProfile → ℕ → ℕ → Mapper → Mapper
unfolding max_bank
apply_control_write_for profile address value m =
    if leb address 0x1fff
    then record m { ram_enabled = bit_and value 0x0f == 0x0a }
    else if leb address 0x3fff
    then record m { rom_bank = selected_bank (bit_and value (max_bank profile.rom_size)) }
    else if leb address 0x5fff
    then record m { ram_rtc_select = bit_and value 0x0f }
    else m
