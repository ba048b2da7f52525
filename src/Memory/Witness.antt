-- ===== src/Memory/Witness.antt =====
-- Merkle paths and the verification of reads and writes (crates/zksm83-memory/src/transcript.rs).
-- Verification is as it is without the thread-local caches.
use zksm.Prelude.{
  ℕ, ◌+◌, ◌/◌, ◌%◌, ◌^◌, Bool, true, false, not, ◌&&◌, ◌==◌, leb, if◌then◌else◌, List, [], ◌∷◌,
  Result, ok, err, ◌>>=◌, ◌>>◌, ◌++◌,
}
use zksm.Memory.Address.{owner, dmg_owner, is_rom, is_memory}
use zksm.Memory.Hash.{CommitmentRoot, HashDomain, hash_parts}

-- Twenty sibling roots, the lowest level first.
pub record MerklePath : Type 0 where
  pub siblings : List CommitmentRoot

abbrev pub address_limit : ℕ
address_limit = 2 ^ 20

abbrev pub bytes_equal : List ℕ → List ℕ → Bool
bytes_equal [] [] = true
bytes_equal [] (y ∷ ys) = false
bytes_equal (x ∷ xs) [] = false
bytes_equal (x ∷ xs) (y ∷ ys) = (x == y) && bytes_equal xs ys

abbrev pub same_root : CommitmentRoot → CommitmentRoot → Bool
same_root a b = bytes_equal a.bytes b.bytes

pub data RomReadError : Type 0 where
  address_not_rom physical_address_out_of_range : ℕ → RomReadError
  root_mismatch : CommitmentRoot → CommitmentRoot → RomReadError

pub data MemoryTranscriptError : Type 0 where
  address_not_mutable physical_address_out_of_range : ℕ → MemoryTranscriptError
  root_mismatch : CommitmentRoot → CommitmentRoot → MemoryTranscriptError

pub record RomRead : Type 0 where
  pub address : ℕ
  pub physical_address : ℕ
  pub value : ℕ
  pub path : MerklePath

pub record MemoryRead : Type 0 where
  pub address : ℕ
  pub physical_address : ℕ
  pub value : ℕ
  pub path : MerklePath

pub record MemoryWrite : Type 0 where
  pub address : ℕ
  pub physical_address : ℕ
  pub before : ℕ
  pub after : ℕ
  pub path : MerklePath

pub data MemoryAccess : Type 0 where
  read : MemoryRead → MemoryAccess
  write : MemoryWrite → MemoryAccess

pub record MemoryTranscript : Type 0 where
  pub initial_root : CommitmentRoot
  pub current_root : CommitmentRoot
  pub accesses : List MemoryAccess

module _ (sha256 : List ℕ → List ℕ) where
  -- The node above `current`, which is the left child at an even position.
  unfoldable pub parent : HashDomain → ℕ → CommitmentRoot → CommitmentRoot → CommitmentRoot
  parent domain address_bits current sibling =
      if address_bits % 2 == 0
      then hash_parts sha256 domain current.bytes sibling.bytes
      else hash_parts sha256 domain sibling.bytes current.bytes

  -- The loop of `derive_root`, from a level on.
  unfoldable pub climb :
      (ℕ → HashDomain) → ℕ → ℕ → CommitmentRoot → List CommitmentRoot → CommitmentRoot
  climb node_domain level address_bits current [] = current
  climb node_domain level address_bits current (sibling ∷ rest) =
      climb node_domain (level + 1) (address_bits / 2)
        (parent (node_domain level) address_bits current sibling) rest

  unfoldable pub derive_root : HashDomain → (ℕ → HashDomain) → ℕ → ℕ → MerklePath → CommitmentRoot
  derive_root leaf_domain node_domain address value path =
      climb node_domain 0 address (hash_parts sha256 leaf_domain (value ∷ []) []) path.siblings

  unfoldable pub mutable_root : ℕ → ℕ → MerklePath → CommitmentRoot
  mutable_root = derive_root HashDomain.memory_leaf HashDomain.memory_node

  unfoldable pub verify_rom_read : CommitmentRoot → RomRead → Result {0} RomReadError Unit
  unfolding owner
  verify_rom_read expected r =
      let actual =
        derive_root HashDomain.rom_leaf HashDomain.rom_node r.physical_address r.value r.path in
      if not (is_rom (owner r.address))
      then err (RomReadError.address_not_rom r.address)
      else if leb address_limit r.physical_address
      then err (RomReadError.physical_address_out_of_range r.physical_address)
      else if not (same_root actual expected)
      then err (RomReadError.root_mismatch expected actual)
      else ok tt

  abbrev pub validate_memory_address : ℕ → Result {0} MemoryTranscriptError Unit
  validate_memory_address address =
      if not (is_memory (owner address)) && not (is_memory (dmg_owner address))
      then err (MemoryTranscriptError.address_not_mutable address)
      else ok tt

  abbrev pub validate_physical_memory_address : ℕ → Result {0} MemoryTranscriptError Unit
  validate_physical_memory_address address =
      if leb address_limit address
      then err (MemoryTranscriptError.physical_address_out_of_range address)
      else ok tt

  abbrev pub require_root : CommitmentRoot → CommitmentRoot → Result {0} MemoryTranscriptError Unit
  require_root expected actual =
      if not (same_root actual expected)
      then err (MemoryTranscriptError.root_mismatch expected actual)
      else ok tt

  unfoldable pub verify_read : CommitmentRoot → MemoryRead → Result {0} MemoryTranscriptError Unit
  verify_read expected r = do
    validate_memory_address r.address
    validate_physical_memory_address r.physical_address
    require_root expected (mutable_root r.physical_address r.value r.path)

  unfoldable pub verify_write :
      CommitmentRoot → MemoryWrite → Result MemoryTranscriptError CommitmentRoot
  verify_write expected w = do
    validate_memory_address w.address
    validate_physical_memory_address w.physical_address
    require_root expected (mutable_root w.physical_address w.before w.path)
    ok (mutable_root w.physical_address w.after w.path)

  abbrev pub new_transcript : CommitmentRoot → MemoryTranscript
  new_transcript root = record { initial_root = root; current_root = root; accesses = [] }

  unfoldable pub transcript_read :
      MemoryTranscript → MemoryRead → Result MemoryTranscriptError MemoryTranscript
  transcript_read t r = do
    verify_read t.current_root r
    ok (record t { accesses = t.accesses ++ (MemoryAccess.read r ∷ []) })

  unfoldable pub transcript_write :
      MemoryTranscript → MemoryWrite → Result MemoryTranscriptError MemoryTranscript
  transcript_write t w = do
    root ← verify_write t.current_root w
    ok (record t { current_root = root; accesses = t.accesses ++ (MemoryAccess.write w ∷ []) })
