-- ===== src/Memory/Image/Write.antt =====
-- Writes of the prover's tree and of the memory image (crates/zksm83-memory/src/image.rs).
use zksm.Prelude.{
  ℕ, zero, suc, ◌+◌, ◌-◌, ◌/◌, ◌%◌, List, [], ◌∷◌, set, get_elem?, Result, ok, err, ok_or, ◌>>=◌,
}
use zksm.Memory.Hash.{CommitmentRoot}
use zksm.Memory.Witness.{MemoryWrite}
use zksm.Memory.Image.{
  MerkleTree, TreeKind, TreeShapeError, MemoryImage, MemoryImageError, leaf, node, top, tree_depth,
  or_invariant, preview_write_mapped,
}

-- A slot that `get_mut` finds, with its new value.
abbrev pub put : {A : Type 0} → List A → ℕ → A → Result TreeShapeError (List A)
put xs i v = do slot ← ok_or (get_elem? xs i) TreeShapeError.tree_shape; ok (set xs i v)

module _ (sha256 : List ℕ → List ℕ) (kind : TreeKind) where
  -- `position & !1` clears the lowest bit.
  abbrev pub parent_of : List CommitmentRoot → ℕ → ℕ → Result TreeShapeError CommitmentRoot
  parent_of current level position = do
    left ← ok_or (get_elem? current (position - position % 2)) TreeShapeError.tree_shape
    right ← ok_or (get_elem? current (suc (position - position % 2))) TreeShapeError.tree_shape
    ok (node sha256 kind level left right)

  -- The loop over the stored levels, from the level `current` on.
  unfoldable pub write_levels :
      ℕ
      → ℕ
      → ℕ
      → List CommitmentRoot
      → List (List CommitmentRoot)
      → Result TreeShapeError (List (List CommitmentRoot))
  write_levels zero level position current above = ok (current ∷ above)
  write_levels (suc count) level position current [] = err TreeShapeError.tree_shape
  write_levels (suc count) level position current (next ∷ above) = do
    parent ← parent_of current level position
    raised ← put next (position / 2) parent
    levels ← write_levels count (level + 1) (position / 2) raised above
    ok (current ∷ levels)

  -- The loop over the levels above them.
  unfoldable pub write_root :
      ℕ → List CommitmentRoot → ℕ → CommitmentRoot → Result TreeShapeError CommitmentRoot
  write_root zero zero_roots level root = ok root
  write_root (suc count) zero_roots level root = do
    zero_root ← ok_or (get_elem? zero_roots level) TreeShapeError.tree_shape
    write_root count zero_roots (level + 1) (node sha256 kind level root zero_root)

  unfoldable pub write_first :
      ℕ
      → ℕ
      → CommitmentRoot
      → List (List CommitmentRoot)
      → Result TreeShapeError (List (List CommitmentRoot))
  write_first depth position new_leaf [] = err TreeShapeError.tree_shape
  write_first depth position new_leaf (first_level ∷ above) = do
    first ← put first_level position new_leaf
    write_levels depth 0 position first above

unfoldable pub write : (List ℕ → List ℕ) → MerkleTree → ℕ → ℕ → Result TreeShapeError MerkleTree
write sha256 tree address value = do
  bytes ← put tree.bytes address value
  levels ←
      write_first sha256 tree.kind tree.stored_depth address (leaf sha256 tree.kind value)
        tree.levels
  stored_root ← top levels
  root ←
      write_root sha256 tree.kind (tree_depth - tree.stored_depth) tree.zero_roots tree.stored_depth
        stored_root
  ok (record tree { bytes = bytes; levels = levels; root = root })

-- The witness, and the image after the write.
unfoldable pub write_mapped :
    (List ℕ → List ℕ)
    → MemoryImage
    → ℕ
    → ℕ
    → ℕ
    → Result MemoryImageError (MemoryWrite × MemoryImage)
write_mapped sha256 image address physical_address after = do
  witness ← preview_write_mapped image address physical_address after
  tree ←
      or_invariant (MemoryImageError.physical_address_out_of_range physical_address)
        (write sha256 image.tree physical_address after)
  ok (witness, record { tree = tree })
