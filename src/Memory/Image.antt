-- ===== src/Memory/Image.antt =====
-- The prover's Merkle tree and memory image (crates/zksm83-memory/src/image.rs).
pub mod Path
pub mod Verified
pub mod Write
pub mod Create
pub mod Written
pub mod Rebuilt
use zksm.Prelude.{
  ℕ, zero, suc, ◌+◌, ◌-◌, ◌/◌, ◌^◌, bit_xor, Bool, true, false, not, ◌&&◌, ◌||◌, ◌==◌, ltb, leb,
  if◌then◌else◌, List, [], ◌∷◌, ◌++◌, map, length, get_elem?, Option, none, some, Result, ok, err,
  ok_or, ◌>>=◌, ◌>>◌,
}
use zksm.Memory.Address.{owner, dmg_owner, is_memory}
use zksm.Memory.Hash.{CommitmentRoot, HashDomain, hash_parts}
use zksm.Memory.Witness.{MerklePath, MemoryRead, MemoryWrite, same_root}

abbrev pub cpu_address_space_bytes : ℕ
cpu_address_space_bytes = 65536

abbrev pub rom_bytes : ℕ
rom_bytes = 1048576

abbrev pub mutable_commitment_bytes : ℕ
mutable_commitment_bytes = 131072

abbrev pub min_tree_depth : ℕ
min_tree_depth = 16

abbrev pub tree_depth : ℕ
tree_depth = 20

pub data TreeKind : Type 0 where
  rom memory : TreeKind

abbrev pub leaf_domain : TreeKind → HashDomain
leaf_domain TreeKind.rom = HashDomain.rom_leaf
leaf_domain TreeKind.memory = HashDomain.memory_leaf

abbrev pub node_domain : TreeKind → ℕ → HashDomain
node_domain TreeKind.rom level = HashDomain.rom_node level
node_domain TreeKind.memory level = HashDomain.memory_node level

pub data TreeShapeError : Type 0 where
  tree_shape : TreeShapeError

pub data MemoryImageError : Type 0 where
  initial_memory_too_large invalid_checkpoint_length invalid_battery_sram_length :
      ℕ → ℕ → MemoryImageError
  address_not_mutable physical_address_out_of_range : ℕ → MemoryImageError
  commitment_invariant : MemoryImageError

pub record MerkleTree : Type 0 where
  pub kind : TreeKind
  pub bytes : List ℕ
  pub levels : List (List CommitmentRoot)
  pub zero_roots : List CommitmentRoot
  pub stored_depth : ℕ
  pub root : CommitmentRoot

-- What the loop over the stored levels has pushed at its end, and the last `zero_child`.
pub record Stored : Type 0 where
  pub levels : List (List CommitmentRoot)
  pub zero_roots : List CommitmentRoot
  pub zero_child : CommitmentRoot

pub record Extended : Type 0 where
  pub zero_roots : List CommitmentRoot
  pub root : CommitmentRoot

-- `ilog2` of a positive number below 2^fuel.
unfoldable pub ilog2 : ℕ → ℕ → ℕ
ilog2 zero n = 0
ilog2 (suc fuel) n = let rest = ilog2 fuel (n / 2) in if leb n 1 then 0 else suc rest

abbrev pub is_power_of_two : ℕ → Bool
is_power_of_two n = n == 2 ^ ilog2 64 n

abbrev pub first : List CommitmentRoot → Result TreeShapeError CommitmentRoot
first [] = err TreeShapeError.tree_shape
first (root ∷ roots) = ok root

-- `levels.last().and_then(|level| level.first())`
abbrev pub top : List (List CommitmentRoot) → Result TreeShapeError CommitmentRoot
top [] = err TreeShapeError.tree_shape
top (level ∷ []) = first level
top (level ∷ next ∷ levels) = top (next ∷ levels)

-- The siblings in the stored levels, `count` of them.
unfoldable pub stored_siblings :
    ℕ → List (List CommitmentRoot) → ℕ → Result TreeShapeError (List CommitmentRoot)
stored_siblings zero levels position = ok []
stored_siblings (suc count) [] position = ok []
stored_siblings (suc count) (level ∷ levels) position = do
  sibling ← ok_or (get_elem? level (bit_xor position 1)) TreeShapeError.tree_shape
  siblings ← stored_siblings count levels (position / 2)
  ok (sibling ∷ siblings)

-- The siblings above them: `count` zero roots from a level on.
unfoldable pub zero_siblings :
    ℕ → List CommitmentRoot → ℕ → Result TreeShapeError (List CommitmentRoot)
zero_siblings zero zero_roots level = ok []
zero_siblings (suc count) zero_roots level = do
  sibling ← ok_or (get_elem? zero_roots level) TreeShapeError.tree_shape
  siblings ← zero_siblings count zero_roots (level + 1)
  ok (sibling ∷ siblings)

abbrev pub path_from_slice : List CommitmentRoot → Result TreeShapeError MerklePath
path_from_slice values =
    if length values == 20 then ok (record { siblings = values }) else err TreeShapeError.tree_shape

unfoldable pub read : MerkleTree → ℕ → Result TreeShapeError (ℕ × MerklePath)
read tree address = do
  value ← ok_or (get_elem? tree.bytes address) TreeShapeError.tree_shape
  stored ← stored_siblings tree.stored_depth tree.levels address
  zeros ← zero_siblings (tree_depth - tree.stored_depth) tree.zero_roots tree.stored_depth
  path ← path_from_slice (stored ++ zeros)
  ok (value, path)

module _ (sha256 : List ℕ → List ℕ) (kind : TreeKind) where
  abbrev pub leaf : ℕ → CommitmentRoot
  leaf value = hash_parts sha256 (leaf_domain kind) (value ∷ []) []

  abbrev pub node : ℕ → CommitmentRoot → CommitmentRoot → CommitmentRoot
  node level left right = hash_parts sha256 (node_domain kind level) left.bytes right.bytes

  -- The pairs of a level, by `chunks_exact(2)`.
  unfoldable pub parents :
      ℕ → CommitmentRoot → CommitmentRoot → List CommitmentRoot → List CommitmentRoot
  parents level zero_child zero_parent [] = []
  parents level zero_child zero_parent (last ∷ []) = []
  parents level zero_child zero_parent (left ∷ right ∷ rest) =
      (if same_root left zero_child && same_root right zero_child
        then zero_parent
        else node level left right)
      ∷ parents level zero_child zero_parent rest

  -- The loop over the stored levels: `count` of them from a level on.
  unfoldable pub store_levels : ℕ → ℕ → CommitmentRoot → List CommitmentRoot → Stored
  store_levels zero level zero_child current = record {
    levels = current ∷ [];
    zero_roots = [];
    zero_child = zero_child;
  }
  store_levels (suc count) level zero_child current =
      let zero_parent = node level zero_child zero_child in
      let rest =
        store_levels count (level + 1) zero_parent (parents level zero_child zero_parent current) in
      record {
        levels = current ∷ rest.levels;
        zero_roots = zero_parent ∷ rest.zero_roots;
        zero_child = rest.zero_child;
      }

  -- The loop over the levels above, where all but the first child is zero.
  unfoldable pub extend : ℕ → ℕ → CommitmentRoot → CommitmentRoot → Extended
  extend zero level root zero_child = record { zero_roots = []; root = root }
  extend (suc count) level root zero_child =
      let zero_parent = node level zero_child zero_child in
      let rest = extend count (level + 1) (node level root zero_child) zero_parent in
      record { zero_roots = zero_parent ∷ rest.zero_roots; root = rest.root }

  abbrev pub leaf_of : ℕ → CommitmentRoot
  leaf_of value = if value == 0 then leaf 0 else leaf value

  unfoldable pub build : List ℕ → Result TreeShapeError MerkleTree
  build bytes =
      let stored_depth = ilog2 64 (length bytes) in
      let stored = store_levels stored_depth 0 (leaf 0) (map leaf_of bytes) in
      if not (is_power_of_two (length bytes))
        || (ltb (length bytes) cpu_address_space_bytes || ltb rom_bytes (length bytes))
      then err TreeShapeError.tree_shape
      else if not (leb min_tree_depth stored_depth && leb stored_depth tree_depth)
      then err TreeShapeError.tree_shape
      else top stored.levels >>= λ stored_root.
          let above =
            extend (tree_depth - stored_depth) stored_depth stored_root stored.zero_child in
          ok (record {
            kind = kind;
            bytes = bytes;
            levels = stored.levels;
            zero_roots = leaf 0 ∷ (stored.zero_roots ++ above.zero_roots);
            stored_depth = stored_depth;
            root = above.root;
          })

abbrev pub or_invariant {ℓ} :
    {A : Type ℓ} → MemoryImageError → Result TreeShapeError A → Result MemoryImageError A
or_invariant error (ok a) = ok a
or_invariant error (err _) = err error

abbrev pub validate_mutable_address : ℕ → Result {0} MemoryImageError Unit
validate_mutable_address address =
    if not (is_memory (owner address)) && not (is_memory (dmg_owner address))
    then err (MemoryImageError.address_not_mutable address)
    else ok tt

pub record MemoryImage : Type 0 where
  pub tree : MerkleTree

unfoldable pub from_checkpoint_bytes :
    (List ℕ → List ℕ) → List ℕ → Result MemoryImageError MemoryImage
from_checkpoint_bytes sha256 bytes =
    if not (length bytes == mutable_commitment_bytes)
    then err (MemoryImageError.invalid_checkpoint_length (length bytes) mutable_commitment_bytes)
    else or_invariant MemoryImageError.commitment_invariant (build sha256 TreeKind.memory bytes)
      >>= λ tree. ok (record { tree = tree })

unfoldable pub read_mapped : MemoryImage → ℕ → ℕ → Result MemoryImageError MemoryRead
read_mapped image address physical_address = do
  validate_mutable_address address
  found ←
      or_invariant (MemoryImageError.physical_address_out_of_range physical_address)
        (read image.tree physical_address)
  ok (record {
    address = address;
    physical_address = physical_address;
    value = found.0;
    path = found.1;
  })

unfoldable pub preview_write_mapped : MemoryImage → ℕ → ℕ → ℕ → Result MemoryImageError MemoryWrite
preview_write_mapped image address physical_address after = do
  validate_mutable_address address
  found ←
      or_invariant (MemoryImageError.physical_address_out_of_range physical_address)
        (read image.tree physical_address)
  ok (record {
    address = address;
    physical_address = physical_address;
    before = found.0;
    after = after;
    path = found.1;
  })
