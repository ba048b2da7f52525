-- ===== src/Memory/Cache.antt =====
-- The caches of verified witnesses (crates/zksm83-memory/src/transcript.rs). A cache is an
-- association list with one entry for a key; the thread's cache is passed in and returned.
pub mod Entries
pub mod Sound
use zksm.Prelude.{
  ℕ, Bool, true, false, not, ◌&&◌, ◌==◌, ltb, leb, if◌then◌else◌, List, [], ◌∷◌, length, Option,
  none, some, Result, ok, err, ◌>>◌,
}
use zksm.Memory.Address.{owner, is_rom}
use zksm.Memory.Hash.{CommitmentRoot, HashDomain}
use zksm.Memory.Witness.{
  MerklePath, RomRead, MemoryRead, MemoryWrite, RomReadError, MemoryTranscriptError, address_limit,
  bytes_equal, same_root, derive_root, mutable_root, validate_memory_address,
  validate_physical_memory_address,
}

abbrev rom_capacity : ℕ
rom_capacity = 32768

abbrev memory_capacity : ℕ
memory_capacity = 8192

-- `RomVerificationKey` and `MemoryVerificationKey`
pub record VerificationKey : Type 0 where
  pub expected_root : CommitmentRoot
  pub physical_address : ℕ

pub record WriteKey : Type 0 where
  pub expected_root : CommitmentRoot
  pub physical_address : ℕ
  pub after : ℕ

-- `VerifiedRomWitness` and `VerifiedMemoryReadWitness`
pub record Verified : Type 0 where
  pub value : ℕ
  pub path : MerklePath

pub record VerifiedWrite : Type 0 where
  pub before : ℕ
  pub path : MerklePath
  pub after_root : CommitmentRoot

abbrev pub same_key : VerificationKey → VerificationKey → Bool
same_key a b =
    same_root a.expected_root b.expected_root && (a.physical_address == b.physical_address)

abbrev pub same_write_key : WriteKey → WriteKey → Bool
same_write_key a b =
    same_root a.expected_root b.expected_root
    && ((a.physical_address == b.physical_address) && (a.after == b.after))

abbrev pub same_siblings : List CommitmentRoot → List CommitmentRoot → Bool
same_siblings [] [] = true
same_siblings [] (y ∷ ys) = false
same_siblings (x ∷ xs) [] = false
same_siblings (x ∷ xs) (y ∷ ys) = same_root x y && same_siblings xs ys

abbrev pub same_path : MerklePath → MerklePath → Bool
same_path a b = same_siblings a.siblings b.siblings

module _ {K V : Type 0} (same : K → K → Bool) where
  unfoldable pub find : List (K × V) → K → Option V
  find [] key = none
  find (entry ∷ entries) key = if same entry.0 key then some entry.1 else find entries key

  unfoldable pub remove : List (K × V) → K → List (K × V)
  remove [] key = []
  remove (entry ∷ entries) key =
      let rest = remove entries key in if same entry.0 key then rest else entry ∷ rest

  unfoldable pub insert : List (K × V) → K → V → List (K × V)
  insert cache key value = (key, value) ∷ remove cache key

  -- Cleared when full.
  unfoldable pub insert_bounded : List (K × V) → K → V → List (K × V)
  insert_bounded cache key value =
      if leb memory_capacity (length cache) then insert [] key value else insert cache key value

  -- Left as it is when full.
  unfoldable pub insert_below : List (K × V) → K → V → List (K × V)
  insert_below cache key value =
      if ltb (length cache) rom_capacity then insert cache key value else cache

abbrev pub Cache : Type 0
Cache = List (VerificationKey × Verified)

abbrev pub WriteCache : Type 0
WriteCache = List (WriteKey × VerifiedWrite)

abbrev pub hit : Option Verified → Verified → Bool
hit none witness = false
hit (some w) witness = (w.value == witness.value) && same_path w.path witness.path

abbrev pub write_hit : Option VerifiedWrite → MemoryWrite → Bool
write_hit none write = false
write_hit (some w) write = (w.before == write.before) && same_path w.path write.path

abbrev pub hit_root : Option VerifiedWrite → CommitmentRoot → CommitmentRoot
hit_root none root = root
hit_root (some w) root = w.after_root

module _ (sha256 : List ℕ → List ℕ) where
  unfoldable pub verify_rom_cached :
      CommitmentRoot → RomRead → Cache → Result {0} RomReadError Unit × Cache
  verify_rom_cached expected r cache =
      let key : VerificationKey = record {
        expected_root = expected;
        physical_address = r.physical_address;
      } in
      let witness : Verified = record { value = r.value; path = r.path } in
      let actual =
        derive_root sha256 HashDomain.rom_leaf HashDomain.rom_node r.physical_address r.value
          r.path in
      if not (is_rom (owner r.address))
      then (err (RomReadError.address_not_rom r.address), cache)
      else if leb address_limit r.physical_address
      then (err (RomReadError.physical_address_out_of_range r.physical_address), cache)
      else if hit (find same_key cache key) witness
      then (ok tt, cache)
      else if not (same_root actual expected)
      then (err (RomReadError.root_mismatch expected actual), cache)
      else (ok tt, insert_below same_key cache key witness)

  abbrev pub checked_address : ℕ → ℕ → Result {0} MemoryTranscriptError Unit
  checked_address address physical_address = do
    validate_memory_address sha256 address
    validate_physical_memory_address sha256 physical_address

  abbrev pub read_checked :
      Result {0} MemoryTranscriptError Unit
      → CommitmentRoot
      → MemoryRead
      → Cache
      → Result {0} MemoryTranscriptError Unit × Cache
  read_checked (err e) expected r cache = (err e, cache)
  read_checked (ok _) expected r cache =
      let key : VerificationKey = record {
        expected_root = expected;
        physical_address = r.physical_address;
      } in
      let witness : Verified = record { value = r.value; path = r.path } in
      let actual = mutable_root sha256 r.physical_address r.value r.path in
      if hit (find same_key cache key) witness
      then (ok tt, cache)
      else if not (same_root actual expected)
      then (err (MemoryTranscriptError.root_mismatch expected actual), cache)
      else (ok tt, insert_bounded same_key cache key witness)

  unfoldable pub verify_read_cached :
      CommitmentRoot → MemoryRead → Cache → Result {0} MemoryTranscriptError Unit × Cache
  verify_read_cached expected r cache =
      read_checked (checked_address r.address r.physical_address) expected r cache

  abbrev pub write_checked :
      Result {0} MemoryTranscriptError Unit
      → CommitmentRoot
      → MemoryWrite
      → WriteCache
      → Result MemoryTranscriptError CommitmentRoot × WriteCache
  write_checked (err e) expected w cache = (err e, cache)
  write_checked (ok _) expected w cache =
      let key : WriteKey = record {
        expected_root = expected;
        physical_address = w.physical_address;
        after = w.after;
      } in
      let found = find same_write_key cache key in
      let before_root = mutable_root sha256 w.physical_address w.before w.path in
      let after_root = mutable_root sha256 w.physical_address w.after w.path in
      if write_hit found w
      then (ok (hit_root found expected), cache)
      else if not (same_root before_root expected)
      then (err (MemoryTranscriptError.root_mismatch expected before_root), cache)
      else (
        ok after_root,
        insert_bounded same_write_key cache key
            (record { before = w.before; path = w.path; after_root = after_root }),
      )

  unfoldable pub verify_write_cached :
      CommitmentRoot
      → MemoryWrite
      → WriteCache
      → Result MemoryTranscriptError CommitmentRoot × WriteCache
  verify_write_cached expected w cache =
      write_checked (checked_address w.address w.physical_address) expected w cache
