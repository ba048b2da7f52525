-- ===== src/Memory/Address.antt =====
-- The owners of CPU addresses (crates/zksm83-memory/src/address.rs).
use zksm.Prelude.{ℕ, Bool, true, false, ◌==◌, ◌||◌, leb, within, if◌then◌else◌}

pub data AddressOwner : Type 0 where
  rom memory input output dmg_mmio dmg_echo unowned : AddressOwner

abbrev pub input_port : ℕ
input_port = 0xfff0

abbrev pub output_port : ℕ
output_port = 0xfff1

unfoldable pub owner : ℕ → AddressOwner
owner address =
    if leb address 0x7fff
    then AddressOwner.rom
    else if within 0x8000 0xffef address
    then AddressOwner.memory
    else if address == input_port
    then AddressOwner.input
    else if address == output_port
    then AddressOwner.output
    else AddressOwner.unowned

unfoldable pub dmg_owner : ℕ → AddressOwner
dmg_owner address =
    if leb address 0x7fff
    then AddressOwner.rom
    else if within 0x8000 0xdfff address
        || (within 0xfe00 0xfe9f address || within 0xff80 0xfffe address)
    then AddressOwner.memory
    else if within 0xe000 0xfdff address
    then AddressOwner.dmg_echo
    else if within 0xff00 0xff7f address || (address == 0xffff)
    then AddressOwner.dmg_mmio
    else AddressOwner.unowned

abbrev pub is_rom : AddressOwner → Bool
is_rom AddressOwner.rom = true
is_rom _ = false

abbrev pub is_memory : AddressOwner → Bool
is_memory AddressOwner.memory = true
is_memory _ = false
