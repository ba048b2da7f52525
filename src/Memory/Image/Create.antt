-- ===== src/Memory/Image/Create.antt =====
-- The ROM image and the other constructors of the memory image (crates/zksm83-memory/src/image.rs).
use zksm.Prelude.{
  ℕ, zero, suc, ◌-◌, ◌*◌, not, ◌==◌, ltb, leb, if◌then◌else◌, max, List, [], ◌∷◌, ◌++◌, length,
  replicate, get_elem?, ok_or, Result, ok, err, ◌>>=◌,
}
use zksm.Memory.Address.{owner, is_rom}
use zksm.Memory.Witness.{RomRead}
use zksm.Memory.Image.{
  MerkleTree, TreeKind, TreeShapeError, MemoryImage, MemoryImageError, build, read, or_invariant,
  mutable_commitment_bytes, rom_bytes, cpu_address_space_bytes,
}
use zksm.Memory.Image.Write.{put}

abbrev pub mutable_bytes : ℕ
mutable_bytes = 32752

abbrev pub battery_sram_start : ℕ
battery_sram_start = 0x10000

abbrev pub battery_sram_bytes : ℕ
battery_sram_bytes = 32768

pub data RomImageError : Type 0 where
  empty_program commitment_invariant : RomImageError
  program_too_large : ℕ → ℕ → RomImageError
  address_not_rom physical_address_out_of_range : ℕ → RomImageError

pub record RomImage : Type 0 where
  pub tree : MerkleTree

abbrev or_rom {ℓ} : {A : Type ℓ} → RomImageError → Result TreeShapeError A → Result RomImageError A
or_rom error (ok a) = ok a
or_rom error (err _) = err error

-- The smallest power of two that is at least `n`, from a power on.
unfoldable pub next_power_of_two : ℕ → ℕ → ℕ → ℕ
next_power_of_two zero power n = power
next_power_of_two (suc fuel) power n =
    let rest = next_power_of_two fuel (power * 2) n in if leb n power then power else rest

-- `RomImage::new`
unfoldable pub new_rom : (List ℕ → List ℕ) → List ℕ → Result RomImageError RomImage
new_rom sha256 program =
    let stored_bytes = max (next_power_of_two 63 1 (length program)) cpu_address_space_bytes in
    let bytes = program ++ replicate (stored_bytes - length program) 0 in
    if length program == 0
    then err RomImageError.empty_program
    else if ltb rom_bytes (length program)
    then err (RomImageError.program_too_large (length program) rom_bytes)
    else or_rom RomImageError.commitment_invariant (build sha256 TreeKind.rom bytes) >>= λ tree.
        ok (record { tree = tree })

-- `RomImage::read_mapped`
unfoldable pub read_mapped_rom : RomImage → ℕ → ℕ → Result RomImageError RomRead
read_mapped_rom image address physical_address =
    if not (is_rom (owner address))
    then err (RomImageError.address_not_rom address)
    else or_rom (RomImageError.physical_address_out_of_range physical_address)
        (read image.tree physical_address)
      >>= λ found. ok (record {
        address = address;
        physical_address = physical_address;
        value = found.0;
        path = found.1;
      })

-- Consecutive slots from an address on.
unfoldable pub fill : ℕ → List ℕ → List ℕ → Result TreeShapeError (List ℕ)
fill address [] bytes = ok bytes
fill address (value ∷ values) bytes = do
  next ← put bytes address value
  fill (suc address) values next

abbrev image_of : (List ℕ → List ℕ) → List ℕ → Result TreeShapeError MemoryImage
image_of sha256 bytes = do tree ← build sha256 TreeKind.memory bytes; ok (record { tree = tree })

-- `MemoryImage::new`
unfoldable pub new_memory : (List ℕ → List ℕ) → List ℕ → Result MemoryImageError MemoryImage
new_memory sha256 initial_bytes =
    if ltb mutable_bytes (length initial_bytes)
    then err (MemoryImageError.initial_memory_too_large (length initial_bytes) mutable_bytes)
    else or_invariant MemoryImageError.commitment_invariant (
        fill 0x8000 initial_bytes (replicate mutable_commitment_bytes 0) >>= λ bytes.
        image_of sha256 bytes)

abbrev pub zeroed : (List ℕ → List ℕ) → Result MemoryImageError MemoryImage
zeroed sha256 = new_memory sha256 []

unfoldable pub with_battery_sram : (List ℕ → List ℕ) → List ℕ → Result MemoryImageError MemoryImage
with_battery_sram sha256 sram =
    if not (length sram == battery_sram_bytes)
    then err (MemoryImageError.invalid_battery_sram_length (length sram) battery_sram_bytes)
    else or_invariant MemoryImageError.commitment_invariant (
        fill battery_sram_start sram (replicate mutable_commitment_bytes 0) >>= λ bytes.
        image_of sha256 bytes)

abbrev pub checkpoint_bytes : MemoryImage → List ℕ
checkpoint_bytes image = image.tree.bytes

-- `bytes.get(address..address + count)`, copied.
unfoldable pub slice : ℕ → ℕ → List ℕ → Result TreeShapeError (List ℕ)
slice zero address bytes = ok []
slice (suc count) address bytes = do
  value ← ok_or (get_elem? bytes address) TreeShapeError.tree_shape
  values ← slice count (suc address) bytes
  ok (value ∷ values)

-- The method `battery_sram_bytes`.
unfoldable pub saved_battery_sram : MemoryImage → Result MemoryImageError (List ℕ)
saved_battery_sram image =
    or_invariant MemoryImageError.commitment_invariant
      (slice battery_sram_bytes battery_sram_start image.tree.bytes)
