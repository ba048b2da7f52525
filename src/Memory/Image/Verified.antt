-- ===== src/Memory/Image/Verified.antt =====
-- Reads of the memory image (crates/zksm83-memory/src/image.rs) against its root.
use mathlib.Core.List.{append_assoc}
use zksm.Prelude.{
  ℕ, zero, suc, ◌+◌, ◌<◌, ◌≡◌, refl, sym, ap, ◌∙◌, Bool, true, false, not, ◌&&◌, if◌then◌else◌,
  List, [], ◌∷◌, ◌++◌, map, length, length-append, get_elem?, some, Result, ok, err, ok_or, arith,
}
use zksm.Memory.Address.{owner, dmg_owner, is_memory}
use zksm.Memory.Hash.{CommitmentRoot}
use zksm.Memory.Witness.{
  MerklePath, MemoryRead, parent, climb, derive_root, mutable_root, verify_read, bytes_equal,
  MemoryTranscriptError, validate_memory_address, validate_physical_memory_address, require_root,
}
use zksm.Memory.Image.{
  MerkleTree, TreeKind, TreeShapeError, MemoryImage, MemoryImageError, Stored, Extended,
  leaf_domain, node_domain, leaf, node, leaf_of, parents, store_levels, extend, zero_siblings, read,
  build, ilog2, from_checkpoint_bytes, read_mapped, validate_mutable_address,
}
use zksm.Memory.Image.Path.{at, top_root, top-top_root, stored_siblings-climb}

pub get_elem?-middle :
    (pre : List CommitmentRoot) (x : CommitmentRoot) (rest : List CommitmentRoot)
    → get_elem? (pre ++ (x ∷ rest)) (length pre) ≡ some x
get_elem?-middle [] x rest = refl
get_elem?-middle (y ∷ pre) x rest = get_elem?-middle pre x rest

module _ (sha256 : List ℕ → List ℕ) (kind : TreeKind) where
  -- The last zero root stored is the one that the levels above start from.
  pub zero_roots-last :
      (n level : ℕ) (zc : CommitmentRoot) (current : List CommitmentRoot)
      → (pre : List CommitmentRoot) × (zc ∷ (store_levels sha256 kind n level zc current).zero_roots
          ≡ pre ++ ((store_levels sha256 kind n level zc current).zero_child ∷ []))
        × (length pre ≡ n)
  unfolding store_levels
  zero_roots-last zero level zc current = ([], refl, refl)
  zero_roots-last (suc n) level zc current =
      let zp = node sha256 kind level zc zc in
      let ih = zero_roots-last n (level + 1) zp (parents sha256 kind level zc zp current) in
      (zc ∷ ih.0, ap (λ l. zc ∷ l) ih.1, ap suc ih.2)

  zero_siblings-climb :
      (n level : ℕ) (root zc : CommitmentRoot) (pre : List CommitmentRoot)
      → length pre ≡ level
      → (ss : List CommitmentRoot) × (zero_siblings n
            (pre ++ (zc ∷ (extend sha256 kind n level root zc).zero_roots))
            level
          ≡ ok ss)
        × (length ss ≡ n)
        × (climb sha256 (node_domain kind) level 0 root ss
            ≡ (extend sha256 kind n level root zc).root)
  unfolding zero_siblings extend climb parent
  zero_siblings-climb zero level root zc pre size = ([], refl, refl, refl)
  zero_siblings-climb (suc n) level root zc pre size =
      let zp = node sha256 kind level zc zc in
      let above = node sha256 kind level root zc in
      let more = zp ∷ (extend sha256 kind n (level + 1) above zp).zero_roots in
      let ih =
        zero_siblings-climb n (level + 1) above zp (pre ++ (zc ∷ []))
          (omega (arith, length-append pre (zc ∷ []))) in
      let found : ok_or (get_elem? (pre ++ (zc ∷ more)) level) TreeShapeError.tree_shape ≡ ok zc =
        ap (λ o. ok_or o TreeShapeError.tree_shape)
          (ap (get_elem? (pre ++ (zc ∷ more))) (sym size) ∙ get_elem?-middle pre zc more) in
      let rest : zero_siblings n (pre ++ (zc ∷ more)) (level + 1) ≡ ok ih.0 =
        ap (λ l. zero_siblings n l (level + 1)) (sym (append_assoc pre (zc ∷ []) more)) ∙ ih.1 in
      (zc ∷ ih.0, rw (found, rest) refl, ap suc ih.2, ih.3)

  pub leaf_of-leaf : (value : ℕ) → leaf_of sha256 kind value ≡ leaf sha256 kind value
  leaf_of-leaf zero = refl
  leaf_of-leaf (suc value) = ground arith

  pub length-leaves : (bytes : List ℕ) → length (map (leaf_of sha256 kind) bytes) ≡ length bytes
  length-leaves [] = refl
  length-leaves (b ∷ bytes) = ap suc (length-leaves bytes)

  -- A byte of the image and its leaf.
  pub byte-leaf :
      (bytes : List ℕ) (i : ℕ)
      → i < length bytes
      → (value : ℕ) × (get_elem? bytes i ≡ some value)
        × (at (map (leaf_of sha256 kind) bytes) i ≡ leaf sha256 kind value)
  byte-leaf [] i below = absurd (omega arith)
  byte-leaf (b ∷ bytes) zero below = (b, refl, leaf_of-leaf b)
  byte-leaf (b ∷ bytes) (suc i) below = byte-leaf bytes i (omega arith)

  -- The tree of 2^17 bytes.
  abbrev stored_part : List ℕ → Stored
  stored_part bytes =
      store_levels sha256 kind 17 0 (leaf sha256 kind 0) (map (leaf_of sha256 kind) bytes)

  abbrev above_part : List ℕ → Extended
  above_part bytes =
      extend sha256 kind 3 17
        (top_root sha256 kind 17 0 (leaf sha256 kind 0) (map (leaf_of sha256 kind) bytes))
        (stored_part bytes).zero_child

  abbrev pub tree_of : List ℕ → MerkleTree
  tree_of bytes = record {
    kind = kind;
    bytes = bytes;
    levels = (stored_part bytes).levels;
    zero_roots =
        leaf sha256 kind 0 ∷ ((stored_part bytes).zero_roots ++ (above_part bytes).zero_roots);
    stored_depth = 17;
    root = (above_part bytes).root;
  }

  pub build-tree_of :
      (bytes : List ℕ) → length bytes ≡ 131072 → build sha256 kind bytes ≡ ok (tree_of bytes)
  unfolding build ilog2
  build-tree_of bytes size =
      let leaves = map (leaf_of sha256 kind) bytes in
      let tops =
        top-top_root sha256 kind 17 0 (leaf sha256 kind 0) leaves (length-leaves bytes ∙ size) in
      rw (size, tops) refl

  read-tree_of :
      (bytes : List ℕ) (i : ℕ)
      → length bytes ≡ 131072
      → i < 131072
      → (value : ℕ) × (path : MerklePath) × (get_elem? bytes i ≡ some value)
        × (read (tree_of bytes) i ≡ ok (value, path))
        × (derive_root sha256 (leaf_domain kind) (node_domain kind) i value path
            ≡ (tree_of bytes).root)
  unfolding read derive_root
  read-tree_of bytes i size below =
      let zc = leaf sha256 kind 0 in
      let leaves = map (leaf_of sha256 kind) bytes in
      let top = top_root sha256 kind 17 0 zc leaves in
      let byte = byte-leaf bytes i (omega arith) in
      let last = zero_roots-last 17 0 zc leaves in
      let zeros = zero_siblings-climb 3 17 top (stored_part bytes).zero_child last.0 last.2 in
      let stored =
        stored_siblings-climb sha256 kind 17 0 i zc leaves zeros.0 (length-leaves bytes ∙ size)
          below in
      let above = above_part bytes in
      let roots : zc ∷ ((stored_part bytes).zero_roots ++ above.zero_roots)
          ≡ last.0 ++ ((stored_part bytes).zero_child ∷ above.zero_roots) =
        ap (λ l. l ++ above.zero_roots) last.1
        ∙ append_assoc last.0 ((stored_part bytes).zero_child ∷ []) above.zero_roots in
      let upper : zero_siblings 3 (tree_of bytes).zero_roots 17 ≡ ok zeros.0 =
        ap (λ l. zero_siblings 3 l 17) roots ∙ zeros.1 in
      let full : length (stored.0 ++ zeros.0) ≡ 20 =
        omega (arith, length-append stored.0 zeros.0, stored.2, zeros.2) in
      (
        byte.0,
        record { siblings = stored.0 ++ zeros.0 },
        byte.1,
        rw (byte.1, stored.1, upper, full) refl,
        ap (λ c. climb sha256 (node_domain kind) 0 i c (stored.0 ++ zeros.0)) (sym byte.2)
            ∙ stored.3
            ∙ zeros.3,
      )

same_bytes : (xs : List ℕ) → bytes_equal xs xs ≡ true
same_bytes [] = refl
same_bytes (x ∷ xs) = let rest = same_bytes xs in ground arith

unguarded :
    (b : Bool) (e : MemoryImageError) (e' : MemoryTranscriptError)
    → ◌≡◌ {A = Result {0} MemoryImageError Unit} (if b then err e else ok tt) (ok tt)
    → ◌≡◌ {A = Result {0} MemoryTranscriptError Unit} (if b then err e' else ok tt) (ok tt)
unguarded true e e' h = absurd (cc h)
unguarded false e e' h = refl

module _ (sha256 : List ℕ → List ℕ) where
  in_range :
      (physical : ℕ) → physical < 131072 → validate_physical_memory_address sha256 physical ≡ ok tt
  in_range physical below = ground arith

  matching : (root : CommitmentRoot) → require_root sha256 root root ≡ ok tt
  matching root = rw (same_bytes root.bytes) refl

  witness-verify_read :
      (root : CommitmentRoot) (r : MemoryRead)
      → validate_mutable_address r.address ≡ ok tt
      → r.physical_address < 131072
      → mutable_root sha256 r.physical_address r.value r.path ≡ root
      → verify_read sha256 root r ≡ ok tt
  unfolding verify_read
  witness-verify_read root r mutable below derived =
      let outer : validate_memory_address sha256 r.address ≡ ok tt =
        unguarded (not (is_memory (owner r.address)) && not (is_memory (dmg_owner r.address))) _ _
          mutable in
      rw (outer, in_range r.physical_address below, derived, matching root) refl

  -- An image of 131072 bytes is built from every such checkpoint; at an address of mutable memory
  -- and a physical address below 131072, its read answers with the byte of the checkpoint and a
  -- witness that verifies against the root of the image.
  pub read_mapped-verify_read :
      (bytes : List ℕ) (address physical_address : ℕ)
      → length bytes ≡ 131072
      → physical_address < 131072
      → validate_mutable_address address ≡ ok tt
      → (image : MemoryImage) × (r : MemoryRead) × (from_checkpoint_bytes sha256 bytes ≡ ok image)
        × (read_mapped image address physical_address ≡ ok r)
        × (get_elem? bytes physical_address ≡ some r.value)
        × (verify_read sha256 image.tree.root r ≡ ok tt)
  unfolding from_checkpoint_bytes read_mapped verify_read mutable_root
  read_mapped-verify_read bytes address physical size below mutable =
      let tree = tree_of sha256 TreeKind.memory bytes in
      let found = read-tree_of sha256 TreeKind.memory bytes physical size below in
      let r : MemoryRead = record {
        address = address;
        physical_address = physical;
        value = found.0;
        path = found.1;
      } in
      (
        record { tree = tree },
        r,
        rw (size, build-tree_of sha256 TreeKind.memory bytes size) refl,
        rw (mutable, found.3) refl,
        found.2,
        witness-verify_read tree.root r mutable below found.4,
      )
