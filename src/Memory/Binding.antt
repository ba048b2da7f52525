-- ===== src/Memory/Binding.antt =====
-- The witnesses of crates/zksm83-memory/src/transcript.rs against collisions of the hash.
use mathlib.Core.Logic.{◌≢◌}
use zksm.Prelude.{
  ℕ, ◌+◌, ◌/◌, ◌%◌, ◌≡◌, refl, sym, ap, ◌∙◌, ◌⊎◌, inl, inr, Bool, true, false, if◌then◌else◌, ◌==◌,
  List, [], ◌∷◌, length, ok, arith,
}
use zksm.Memory.Hash.{CommitmentRoot, HashDomain, hash_parts, preimage}
use zksm.Memory.Injective.{IsMeasured, preimage_injective, bytes-cases}
use zksm.Memory.Witness.{
  MerklePath, bytes_equal, RomRead, MemoryRead, MemoryWrite, same_root, parent, climb, derive_root,
  mutable_root, verify_rom_read, verify_read, verify_write,
}

-- Two inputs of one digest.
pub record Collision (sha256 : List ℕ → List ℕ) : Type 0 where
  pub first : List ℕ
  pub second : List ℕ
  pub differ : first ≢ second
  pub same_digest : sha256 first ≡ sha256 second

-- The type `[u8; 32]` of a root.
abbrev pub IsRoot : CommitmentRoot → Type 0
IsRoot r = length r.bytes ≡ 32

pub data AreRoots : List CommitmentRoot → Type 0 where
  none : AreRoots []
  more :
      (r : CommitmentRoot) (rs : List CommitmentRoot) → IsRoot r → AreRoots rs → AreRoots (r ∷ rs)

-- The type `[CommitmentRoot; 20]` of a path.
pub record IsPath (p : MerklePath) : Type 0 where
  pub depth : length p.siblings ≡ 20
  pub roots : AreRoots p.siblings

bytes_equal-eq : (xs ys : List ℕ) → bytes_equal xs ys ≡ true → xs ≡ ys
bytes_equal-eq [] [] h = refl
bytes_equal-eq [] (y ∷ ys) h = absurd (cc h)
bytes_equal-eq (x ∷ xs) [] h = absurd (cc h)
bytes_equal-eq (x ∷ xs) (y ∷ ys) h =
    let head : x ≡ y = ground arith in
    let tail : bytes_equal xs ys ≡ true = ground arith in cc (head, bytes_equal-eq xs ys tail)

abbrev pub of_bytes : List ℕ → CommitmentRoot
of_bytes bytes = record { bytes = bytes }

pub same_root-eq : (a b : CommitmentRoot) → same_root a b ≡ true → a ≡ b
same_root-eq a b h = ap of_bytes (bytes_equal-eq a.bytes b.bytes h)

module _ (sha256 : List ℕ → List ℕ) (digest_length : (x : List ℕ) → length (sha256 x) ≡ 32) where
  -- Parts of one domain that hash alike are the same parts, or a collision.
  pub hash_parts-binding :
      (d : HashDomain) (l l' r r' : List ℕ)
      → IsMeasured l
      → IsMeasured l'
      → IsMeasured r
      → IsMeasured r'
      → hash_parts sha256 d l r ≡ hash_parts sha256 d l' r'
      → ((l ≡ l') × (r ≡ r')) ⊎ Collision sha256
  unfolding hash_parts
  hash_parts-binding d l l' r r' ml ml' mr mr' e =
      elim (bytes-cases (preimage d l r) (preimage d l' r')) [
        | inl same ↦ inl (preimage_injective d l l' r r' ml ml' mr mr' same)
        | inr differ ↦ inr (record {
          first = preimage d l r;
          second = preimage d l' r';
          differ = differ;
          same_digest = ap (λ c. c.bytes) e;
        })
      ]

  parent-IsRoot : (d : HashDomain) (b : ℕ) (c s : CommitmentRoot) → IsRoot (parent sha256 d b c s)
  unfolding parent hash_parts
  parent-IsRoot d b c s = ground (
    arith,
    digest_length (preimage d c.bytes s.bytes),
    digest_length (preimage d s.bytes c.bytes),
  )

  pub root-IsMeasured : (r : CommitmentRoot) → IsRoot r → IsMeasured r.bytes
  root-IsMeasured r h = omega arith

  -- The parent of the same position on both sides, its order given.
  ordered-binding :
      (d : HashDomain) (even : Bool) (c c' s s' : CommitmentRoot)
      → IsRoot c
      → IsRoot c'
      → IsRoot s
      → IsRoot s'
      → (if even then hash_parts sha256 d c.bytes s.bytes else hash_parts sha256 d s.bytes c.bytes)
        ≡ (if even
            then hash_parts sha256 d c'.bytes s'.bytes
            else hash_parts sha256 d s'.bytes c'.bytes)
      → (c ≡ c') ⊎ Collision sha256
  ordered-binding d true c c' s s' hc hc' hs hs' e =
      elim (hash_parts-binding d c.bytes c'.bytes s.bytes s'.bytes (root-IsMeasured c hc)
        (root-IsMeasured c' hc') (root-IsMeasured s hs) (root-IsMeasured s' hs') e) [
          | inl same ↦ inl (ap of_bytes same.0)
          | inr collision ↦ inr collision
        ]
  ordered-binding d false c c' s s' hc hc' hs hs' e =
      elim (hash_parts-binding d s.bytes s'.bytes c.bytes c'.bytes (root-IsMeasured s hs)
        (root-IsMeasured s' hs') (root-IsMeasured c hc) (root-IsMeasured c' hc') e) [
          | inl same ↦ inl (ap of_bytes same.1)
          | inr collision ↦ inr collision
        ]

  parent-binding :
      (d : HashDomain) (b : ℕ) (c c' s s' : CommitmentRoot)
      → IsRoot c
      → IsRoot c'
      → IsRoot s
      → IsRoot s'
      → parent sha256 d b c s ≡ parent sha256 d b c' s'
      → (c ≡ c') ⊎ Collision sha256
  unfolding parent
  parent-binding d b c c' s s' hc hc' hs hs' e =
      ordered-binding d (b % 2 == 0) c c' s s' hc hc' hs hs' e

  climb-binding :
      (nodes : ℕ → HashDomain) (level bits : ℕ) (c c' : CommitmentRoot)
      (ss ss' : List CommitmentRoot)
      → IsRoot c
      → IsRoot c'
      → AreRoots ss
      → AreRoots ss'
      → length ss ≡ length ss'
      → climb sha256 nodes level bits c ss ≡ climb sha256 nodes level bits c' ss'
      → (c ≡ c') ⊎ Collision sha256
  unfolding climb
  climb-binding nodes level bits c c' [] [] hc hc' none none len e = inl e
  climb-binding nodes level bits c c' [] (s' ∷ ss') hc hc' r r' len e = absurd (omega arith)
  climb-binding nodes level bits c c' (s ∷ ss) [] hc hc' r r' len e = absurd (omega arith)
  climb-binding nodes level bits c c' (s ∷ ss) (s' ∷ ss') hc hc' (more _ _ hs rs) (more _ _ hs' rs')
        len e =
      let p = parent sha256 (nodes level) bits c s in
      let p' = parent sha256 (nodes level) bits c' s' in
      elim (climb-binding nodes (level + 1) (bits / 2) p p' ss ss'
        (parent-IsRoot (nodes level) bits c s) (parent-IsRoot (nodes level) bits c' s') rs rs'
        (omega arith) e) [
          | inl same ↦ parent-binding (nodes level) bits c c' s s' hc hc' hs hs' same
          | inr collision ↦ inr collision
        ]

  leaf-IsRoot : (d : HashDomain) (v : ℕ) → IsRoot (hash_parts sha256 d (v ∷ []) [])
  unfolding hash_parts
  leaf-IsRoot d v = digest_length (preimage d (v ∷ []) [])

  -- What verification has compared.
  rom_read-root :
      (root : CommitmentRoot) (r : RomRead)
      → verify_rom_read sha256 root r ≡ ok tt
      → derive_root sha256 HashDomain.rom_leaf HashDomain.rom_node r.physical_address r.value r.path
        ≡ root
  unfolding verify_rom_read
  rom_read-root root r e = same_root-eq _ root (ground arith)

  read-root :
      (root : CommitmentRoot) (r : MemoryRead)
      → verify_read sha256 root r ≡ ok tt
      → mutable_root sha256 r.physical_address r.value r.path ≡ root
  unfolding verify_read
  read-root root r e = same_root-eq _ root (ground arith)

  write_roots :
      (root root' : CommitmentRoot) (w : MemoryWrite)
      → verify_write sha256 root w ≡ ok root'
      → (mutable_root sha256 w.physical_address w.before w.path ≡ root)
        × (mutable_root sha256 w.physical_address w.after w.path ≡ root')
  unfolding verify_write
  write_roots root root' w e = (same_root-eq _ root (ground arith), ground arith)

  derive_root-binding :
      (leaf : HashDomain) (nodes : ℕ → HashDomain) (address v v' : ℕ) (p p' : MerklePath)
      → IsPath p
      → IsPath p'
      → derive_root sha256 leaf nodes address v p ≡ derive_root sha256 leaf nodes address v' p'
      → (v ≡ v') ⊎ Collision sha256
  unfolding derive_root
  derive_root-binding leaf nodes address v v' p p' hp hp' e =
      elim (climb-binding nodes 0 address _ _ p.siblings p'.siblings (leaf-IsRoot leaf v)
        (leaf-IsRoot leaf v') hp.roots hp'.roots (hp.depth ∙ sym hp'.depth) e) [
          | inr collision ↦ inr collision
          | inl same ↦
              elim (hash_parts-binding leaf (v ∷ []) (v' ∷ []) [] [] (omega arith) (omega arith)
                (omega arith) (omega arith) same) [
                  | inl parts ↦ inl (cc (parts.0))
                  | inr collision ↦ inr collision
                ]
        ]

  -- For a hash of 32-byte digests and paths of twenty roots, two ROM reads that verify against one
  -- root at one physical address have one value, or two inputs of the hash collide.
  pub verify_rom_read-binding :
      (root : CommitmentRoot) (r r' : RomRead)
      → IsPath r.path
      → IsPath r'.path
      → r.physical_address ≡ r'.physical_address
      → verify_rom_read sha256 root r ≡ ok tt
      → verify_rom_read sha256 root r' ≡ ok tt
      → (r.value ≡ r'.value) ⊎ Collision sha256
  verify_rom_read-binding root r r' hp hp' place e e' =
      derive_root-binding HashDomain.rom_leaf HashDomain.rom_node r.physical_address r.value
        r'.value r.path r'.path hp hp'
        (rom_read-root root r e ∙ sym (rw place (rom_read-root root r' e')))

  -- For a hash of 32-byte digests and paths of twenty roots, after a write that verifies, a read
  -- that verifies against the new root at the same physical address has the value written, or two
  -- inputs of the hash collide.
  pub verify_write-read_binding :
      (root root' : CommitmentRoot) (w : MemoryWrite) (r : MemoryRead)
      → IsPath w.path
      → IsPath r.path
      → w.physical_address ≡ r.physical_address
      → verify_write sha256 root w ≡ ok root'
      → verify_read sha256 root' r ≡ ok tt
      → (w.after ≡ r.value) ⊎ Collision sha256
  unfolding mutable_root
  verify_write-read_binding root root' w r hp hp' place e e' =
      derive_root-binding HashDomain.memory_leaf HashDomain.memory_node w.physical_address w.after
        r.value w.path r.path hp hp'
        ((write_roots root root' w e).1 ∙ sym (rw place (read-root root' r e')))
