-- ===== src/Examples/Memory.antt =====
-- Concrete instances of the theorems on authenticated memory and the APU.
use zksm.Prelude.{
  ℕ, zero, suc, ◌≡◌, ◌⊎◌, refl, true, some, ok, List, [], ◌∷◌, replicate, length, length-replicate,
  get_elem?, set, ◌||◌, if◌then◌else◌, has_bits, bit_or, arith,
}
use zksm.Apu
use zksm.Apu.{Apu}
use zksm.Apu.Registers.{write-control}
use zksm.Apu.Shape.{IsValid, write-wave_self, write-wave_ne}
use zksm.Memory.Hash.{hash_parts, zero_root}
use zksm.Memory.Address.{owner}
use zksm.Memory.Witness.{
  MerklePath, RomRead, MemoryRead, MemoryWrite, mutable_root, derive_root, climb, parent,
  verify_rom_read, verify_read, verify_write,
}
use zksm.Memory.Binding.{
  Collision, AreRoots, IsPath, verify_rom_read-binding, verify_write-read_binding,
}
use zksm.Memory.Cache.{WriteCache, verify_write_cached}
use zksm.Memory.Cache.Entries.{Holds}
use zksm.Memory.Cache.Sound.{WriteVerified, verify_write_cached-verify_write}
use zksm.Memory.Image.{MemoryImage, from_checkpoint_bytes, read_mapped, validate_mutable_address}
use zksm.Memory.Image.{MerkleTree, TreeKind, build}
use zksm.Memory.Image.Write.{write}
use zksm.Memory.Image.Rebuilt.{write-build}
use zksm.Memory.Image.Verified.{read_mapped-verify_read}
use zksm.Memory.Log.{LogKind, LogAccumulator, append_all, append, empty, commit}
use zksm.Memory.LogBinding.{commit-binding}
use zksm.Memory.LogTotal.{commit-takes}

-- A digest of 32 bytes that every input shares, so that witnesses are easy to write down.
abbrev constant_digest : List ℕ → List ℕ
constant_digest x = replicate 32 0

length-constant_digest : (x : List ℕ) → length (constant_digest x) ≡ 32
length-constant_digest x = refl

abbrev zero_path : MerklePath
zero_path = record { siblings = replicate 20 zero_root }

replicated_roots : (n : ℕ) → AreRoots (replicate n zero_root)
replicated_roots zero = AreRoots.none
replicated_roots (suc n) = AreRoots.more zero_root (replicate n zero_root) refl (replicated_roots n)

zero_path-IsPath : IsPath zero_path
zero_path-IsPath = record { depth = refl; roots = replicated_roots 20 }

abbrev rom_read_at : ℕ → RomRead
rom_read_at value = record {
  address = 0x150;
  physical_address = 0x150;
  value = value;
  path = zero_path;
}

rom_read_accepted :
    (value : ℕ) → verify_rom_read constant_digest zero_root (rom_read_at value) ≡ ok tt
unfolding verify_rom_read derive_root climb parent hash_parts
rom_read_accepted value = refl

verify_rom_read-binding_example : (◌≡◌ {A = ℕ} 5 7) ⊎ Collision constant_digest
verify_rom_read-binding_example =
    verify_rom_read-binding constant_digest length-constant_digest zero_root (rom_read_at 5)
      (rom_read_at 7) zero_path-IsPath zero_path-IsPath refl (rom_read_accepted 5)
      (rom_read_accepted 7)

abbrev stored_five : MemoryWrite
stored_five = record {
  address = 0xc000;
  physical_address = 0xc000;
  before = 0;
  after = 5;
  path = zero_path;
}

abbrev loaded_five : MemoryRead
loaded_five = record { address = 0xc000; physical_address = 0xc000; value = 5; path = zero_path }

stored_five_accepted : verify_write constant_digest zero_root stored_five ≡ ok zero_root
unfolding verify_write owner mutable_root derive_root climb parent hash_parts
stored_five_accepted = refl

loaded_five_accepted : verify_read constant_digest zero_root loaded_five ≡ ok tt
unfolding verify_read owner mutable_root derive_root climb parent hash_parts
loaded_five_accepted = refl

verify_write-read_binding_example : (◌≡◌ {A = ℕ} 5 5) ⊎ Collision constant_digest
verify_write-read_binding_example =
    verify_write-read_binding constant_digest length-constant_digest zero_root zero_root stored_five
      loaded_five zero_path-IsPath zero_path-IsPath refl stored_five_accepted loaded_five_accepted

abbrev two_inputs : LogAccumulator
two_inputs = record { kind = LogKind.input; next_index = 2; root = zero_root }

two_inputs_committed : (x y : ℕ) → commit constant_digest LogKind.input (x ∷ y ∷ []) ≡ ok two_inputs
unfolding commit append_all append empty hash_parts
two_inputs_committed x y = refl

commit-binding_example : (◌≡◌ {A = List ℕ} (3 ∷ 4 ∷ []) (4 ∷ 3 ∷ [])) ⊎ Collision constant_digest
commit-binding_example =
    commit-binding constant_digest length-constant_digest LogKind.input (3 ∷ 4 ∷ []) (4 ∷ 3 ∷ [])
      two_inputs two_inputs (two_inputs_committed 3 4) (two_inputs_committed 4 3) refl refl

post_boot-IsValid : IsValid Apu.dmg_post_boot
post_boot-IsValid = record { registers_length = refl; wave_length = refl }

-- The APU after 0x5a is written to its first byte of wave RAM.
abbrev waved : Apu
waved = record Apu.dmg_post_boot { wave_ram = 0x5a ∷ replicate 15 0 }

wave_stored : Apu.write 0xff30 0x5a Apu.dmg_post_boot ≡ some (0, waved)
unfolding Apu.write
wave_stored = refl

post_boot_master : Apu.read 0xff26 Apu.dmg_post_boot ≡ some 0xf1
unfolding Apu.read
post_boot_master = refl

write-control_example :
    (before : ℕ) × (after : Apu) × (Apu.read 0xff12 Apu.dmg_post_boot ≡ some before)
    × (Apu.write 0xff12 0x42 Apu.dmg_post_boot ≡ some (before, after))
    × (Apu.read 0xff12 after
        ≡ some (
            if has_bits 0xf1 0x80 || Apu.is_length_register 0xff12
            then bit_or 0x42 (Apu.read_mask 0xff12)
            else before))
    × (Apu.read 0xff24 after ≡ Apu.read 0xff24 Apu.dmg_post_boot)
    × ((has_bits 0xf1 0x80 || Apu.is_length_register 0xff12 ≡ true) ⊎ (after ≡ Apu.dmg_post_boot))
write-control_example =
    write-control 0xff12 0x42 0xff24 0xf1 Apu.dmg_post_boot post_boot-IsValid post_boot_master
      (omega arith) (omega arith) (omega arith) (omega arith) (omega arith)

write-wave_self_example : Apu.read 0xff30 waved ≡ some 0x5a
write-wave_self_example =
    write-wave_self 0xff30 0x5a 0 Apu.dmg_post_boot waved (omega arith) (omega arith) wave_stored

write-wave_ne_example : Apu.read 0xff12 waved ≡ Apu.read 0xff12 Apu.dmg_post_boot
write-wave_ne_example =
    write-wave_ne 0xff30 0x5a 0 0xff12 Apu.dmg_post_boot waved (omega arith) (omega arith)
      wave_stored (omega arith)

commit-takes_example :
    (a : LogAccumulator) × (commit constant_digest LogKind.output (9 ∷ 8 ∷ 7 ∷ []) ≡ ok a)
    × (a.next_index ≡ 3)
commit-takes_example = commit-takes constant_digest LogKind.output (9 ∷ 8 ∷ 7 ∷ []) (omega arith)

-- The cache after the write of five has been verified.
abbrev stored_cache : WriteCache
stored_cache =
    (
      record { expected_root = zero_root; physical_address = 0xc000; after = 5 },
      record { before = 0; path = zero_path; after_root = zero_root },
    )
    ∷ []

stored_cache-Holds : Holds (WriteVerified constant_digest) stored_cache
unfolding mutable_root derive_root climb parent hash_parts
stored_cache-Holds = Holds.more _ [] (refl, refl) Holds.nil

verify_write_cached-verify_write_example :
    ((verify_write_cached constant_digest zero_root stored_five stored_cache).0
      ≡ verify_write constant_digest zero_root stored_five)
    × Holds
        (WriteVerified constant_digest)
        (verify_write_cached constant_digest zero_root stored_five stored_cache).1
verify_write_cached-verify_write_example =
    verify_write_cached-verify_write constant_digest zero_root stored_five stored_cache
      stored_cache-Holds

-- A checkpoint of bytes that are all seven.
abbrev checkpoint : List ℕ
checkpoint = replicate 131072 7

mutable_address : validate_mutable_address 0xc000 ≡ ok tt
unfolding owner
mutable_address = refl

read_mapped-verify_read_example :
    (image : MemoryImage) × (r : MemoryRead) × (from_checkpoint_bytes constant_digest checkpoint
      ≡ ok image)
    × (read_mapped image 0xc000 0x1c000 ≡ ok r)
    × (get_elem? checkpoint 0x1c000 ≡ some r.value)
    × (verify_read constant_digest image.tree.root r ≡ ok tt)
read_mapped-verify_read_example =
    read_mapped-verify_read constant_digest checkpoint 0xc000 0x1c000
      (length-replicate {A = ℕ} 131072 7) (omega arith) mutable_address

write-build_example :
    (before after : MerkleTree) × (build constant_digest TreeKind.memory checkpoint ≡ ok before)
    × (write constant_digest before 0x1c000 9 ≡ ok after)
    × (build constant_digest TreeKind.memory (set checkpoint 0x1c000 9) ≡ ok after)
write-build_example =
    write-build constant_digest TreeKind.memory checkpoint 0x1c000 9
      (length-replicate {A = ℕ} 131072 7) (omega arith)
