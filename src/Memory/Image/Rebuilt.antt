-- ===== src/Memory/Image/Rebuilt.antt =====
-- The tree after a write (crates/zksm83-memory/src/image.rs) is the tree of the written bytes.
use mathlib.Core.List.{append_assoc}
use zksm.Prelude.{
  ℕ, zero, suc, ◌<◌, ◌≡◌, refl, sym, ap, ◌∙◌, List, [], ◌∷◌, ◌++◌, map, length, length-set, set, ok,
  arith,
}
use zksm.Memory.Hash.{CommitmentRoot}
use zksm.Memory.Image.{
  MerkleTree, TreeKind, Stored, Extended, leaf, leaf_of, store_levels, extend, build,
}
use zksm.Memory.Image.Path.{top_root, top-top_root}
use zksm.Memory.Image.Verified.{
  zero_roots-last, leaf_of-leaf, length-leaves, byte-leaf, tree_of, build-tree_of,
}
use zksm.Memory.Image.Write.{write_root, write_first, write}
use zksm.Memory.Image.Written.{
  store_levels-above, store_levels-zero_roots, extend-zero_roots, write_root-extend, put-set,
  write_levels-set,
}

module _ (sha256 : List ℕ → List ℕ) (kind : TreeKind) where
  leaves-set :
      (bytes : List ℕ) (i v : ℕ)
      → map (leaf_of sha256 kind) (set bytes i v)
        ≡ set (map (leaf_of sha256 kind) bytes) i (leaf sha256 kind v)
  leaves-set [] i v = refl
  leaves-set (b ∷ bytes) zero v =
      ap (λ r. r ∷ map (leaf_of sha256 kind) bytes) (leaf_of-leaf sha256 kind v)
  leaves-set (b ∷ bytes) (suc i) v = ap (λ l. leaf_of sha256 kind b ∷ l) (leaves-set bytes i v)

  abbrev stored_of : List CommitmentRoot → Stored
  stored_of leaves = store_levels sha256 kind 17 0 (leaf sha256 kind 0) leaves

  abbrev root_of : List CommitmentRoot → CommitmentRoot
  root_of leaves = top_root sha256 kind 17 0 (leaf sha256 kind 0) leaves

  abbrev above_of : List CommitmentRoot → Extended
  above_of leaves = extend sha256 kind 3 17 (root_of leaves) (stored_of leaves).zero_child

  abbrev zeros_of : List CommitmentRoot → List CommitmentRoot
  zeros_of leaves =
      leaf sha256 kind 0 ∷ ((stored_of leaves).zero_roots ++ (above_of leaves).zero_roots)

  abbrev tree_from : List ℕ → List CommitmentRoot → MerkleTree
  tree_from bytes leaves = record {
    kind = kind;
    bytes = bytes;
    levels = (stored_of leaves).levels;
    zero_roots = zeros_of leaves;
    stored_depth = 17;
    root = (above_of leaves).root;
  }

  zeros_of-same : (xs ys : List CommitmentRoot) → zeros_of xs ≡ zeros_of ys
  zeros_of-same xs ys =
      let zc = leaf sha256 kind 0 in
      let s = store_levels-zero_roots sha256 kind 17 0 zc xs ys in
      let e : (above_of xs).zero_roots ≡ (above_of ys).zero_roots =
        extend-zero_roots sha256 kind 3 17 (stored_of xs).zero_child (root_of xs) (root_of ys)
        ∙ ap (λ z. (extend sha256 kind 3 17 (root_of ys) z).zero_roots) s.1 in
      λ i. zc ∷ (s.0 i ++ e i)

  write_root-above :
      (leaves : List CommitmentRoot)
      → write_root sha256 kind 3 (zeros_of leaves) 17 (root_of leaves) ≡ ok (above_of leaves).root
  write_root-above leaves =
      let last = zero_roots-last sha256 kind 17 0 (leaf sha256 kind 0) leaves in
      let child = (stored_of leaves).zero_child in
      let above = (above_of leaves).zero_roots in
      let roots : zeros_of leaves ≡ last.0 ++ (child ∷ above) =
        ap (λ l. l ++ above) last.1 ∙ append_assoc last.0 (child ∷ []) above in
      ap (λ l. write_root sha256 kind 3 l 17 (root_of leaves)) roots
      ∙ write_root-extend sha256 kind 3 17 (root_of leaves) child last.0 last.2

  write_first-stored :
      (leaves : List CommitmentRoot) (i : ℕ) (x : CommitmentRoot)
      → length leaves ≡ 131072
      → i < 131072
      → write_first sha256 kind 17 i x (stored_of leaves).levels
        ≡ ok (stored_of (set leaves i x)).levels
  unfolding write_first
  write_first-stored leaves i x size below =
      let zc = leaf sha256 kind 0 in
      rw
        (
          store_levels-above sha256 kind 17 0 zc leaves,
          put-set sha256 kind leaves i x (omega arith),
        )
        (write_levels-set sha256 kind 17 0 i zc x leaves size below)

  write-tree_from :
      (bytes : List ℕ) (i v : ℕ)
      → length bytes ≡ 131072
      → i < 131072
      → write sha256 (tree_of sha256 kind bytes) i v
        ≡ ok (
            tree_from
              (set bytes i v)
              (set (map (leaf_of sha256 kind) bytes) i (leaf sha256 kind v)))
  unfolding write
  write-tree_from bytes i v size below =
      let leaves = map (leaf_of sha256 kind) bytes in
      let written = set leaves i (leaf sha256 kind v) in
      let height = length-leaves sha256 kind bytes ∙ size in
      let byte = byte-leaf sha256 kind bytes i (omega arith) in
      let first = write_first-stored leaves i (leaf sha256 kind v) height below in
      let tops =
        top-top_root sha256 kind 17 0 (leaf sha256 kind 0) written
          (length-set leaves i (leaf sha256 kind v) ∙ height) in
      let zeros = zeros_of-same leaves written in
      let rising : write_root sha256 kind 3 (zeros_of leaves) 17 (root_of written)
          ≡ ok (above_of written).root =
        ap (λ l. write_root sha256 kind 3 l 17 (root_of written)) zeros
        ∙ write_root-above written in
      rw (byte.1, first, tops, rising)
        (λ j. ok (record (tree_from (set bytes i v) written) { zero_roots = zeros j }))

  -- A tree of 131072 bytes, written at a position below 131072, is the tree that is built from the
  -- written bytes.
  pub write-build :
      (bytes : List ℕ) (i v : ℕ)
      → length bytes ≡ 131072
      → i < 131072
      → (before after : MerkleTree) × (build sha256 kind bytes ≡ ok before)
        × (write sha256 before i v ≡ ok after)
        × (build sha256 kind (set bytes i v) ≡ ok after)
  write-build bytes i v size below = (
    tree_of sha256 kind bytes,
    tree_of sha256 kind (set bytes i v),
    build-tree_of sha256 kind bytes size,
    write-tree_from bytes i v size below
        ∙ ap (λ l. ok (tree_from (set bytes i v) l)) (sym (leaves-set bytes i v)),
    build-tree_of sha256 kind (set bytes i v) (length-set bytes i v ∙ size),
  )
