-- ===== src/Memory/Image/Path.antt =====
-- The paths of the prover's tree (crates/zksm83-memory/src/image.rs) lead to its root.
use native.Mathlib.Nat.{pow-suc}
use zksm.Prelude.{
  ℕ, zero, suc, ◌+◌, ◌*◌, ◌/◌, ◌%◌, ◌^◌, ◌<◌, bit_xor, flip_bit_0, ◌≡◌, refl, sym, ap, ◌∙◌, ◌⊎◌,
  inl, inr, Bool, true, false, ◌&&◌, if◌then◌else◌, List, [], ◌∷◌, ◌++◌, length, get_elem?, select,
  some, ok, ok_or, arith,
}
use zksm.Memory.Hash.{CommitmentRoot, HashDomain, hash_parts, zero_root}
use zksm.Memory.Binding.{same_root-eq}
use zksm.Memory.Witness.{same_root, parent, climb}
use zksm.Memory.Image.{
  TreeKind, TreeShapeError, node_domain, node, parents, store_levels, top, stored_siblings,
}

-- A root of a level, where there is one.
abbrev pub at : List CommitmentRoot → ℕ → CommitmentRoot
at roots i = select i roots zero_root

pub get_elem?-at :
    (roots : List CommitmentRoot) (i : ℕ) → i < length roots → get_elem? roots i ≡ some (at roots i)
get_elem?-at [] i h = absurd (omega arith)
get_elem?-at (root ∷ roots) zero h = refl
get_elem?-at (root ∷ roots) (suc i) h = get_elem?-at roots i (omega arith)

module _ (sha256 : List ℕ → List ℕ) (kind : TreeKind) where
  -- The shortcut for two zero children is the node of them.
  pub paired :
      (b : Bool) (level : ℕ) (left right zero_child : CommitmentRoot)
      → same_root left zero_child && same_root right zero_child ≡ b
      → (if b
          then node sha256 kind level zero_child zero_child
          else node sha256 kind level left right)
        ≡ node sha256 kind level left right
  paired false level left right zero_child h = refl
  paired true level left right zero_child h =
      let l : left ≡ zero_child = same_root-eq left zero_child (ground arith) in
      let r : right ≡ zero_child = same_root-eq right zero_child (ground arith) in
      λ i. node sha256 kind level (sym l i) (sym r i)

  pub length-parents :
      (level n : ℕ) (zero_child zero_parent : CommitmentRoot) (roots : List CommitmentRoot)
      → length roots ≡ 2 * n
      → length (parents sha256 kind level zero_child zero_parent roots) ≡ n
  unfolding parents
  length-parents level zero zc zp [] h = refl
  length-parents level zero zc zp (x ∷ roots) h = absurd (omega arith)
  length-parents level (suc n) zc zp [] h = absurd (omega arith)
  length-parents level (suc n) zc zp (x ∷ []) h = absurd (omega arith)
  length-parents level (suc n) zc zp (x ∷ y ∷ roots) h =
      ap suc (length-parents level n zc zp roots (omega arith))

  at-parents :
      (level i : ℕ) (zero_child : CommitmentRoot) (roots : List CommitmentRoot)
      → suc (2 * i) < length roots
      → at
          (parents sha256 kind level zero_child
            (node sha256 kind level zero_child zero_child)
            roots)
          i
        ≡ node sha256 kind level (at roots (2 * i)) (at roots (suc (2 * i)))
  unfolding parents
  at-parents level i zc [] h = absurd (omega arith)
  at-parents level i zc (x ∷ []) h = absurd (omega arith)
  at-parents level zero zc (x ∷ y ∷ roots) h = paired _ level x y zc refl
  at-parents level (suc i) zc (x ∷ y ∷ roots) h =
      let even : 2 * suc i ≡ suc (suc (2 * i)) = omega arith in
      rw even (at-parents level i zc roots (omega arith))

  parent-even :
      (d : HashDomain) (p : ℕ) (c s : CommitmentRoot)
      → p % 2 ≡ 0
      → parent sha256 d p c s ≡ hash_parts sha256 d c.bytes s.bytes
  unfolding parent
  parent-even d p c s h = ground arith

  parent-odd :
      (d : HashDomain) (p : ℕ) (c s : CommitmentRoot)
      → p % 2 ≡ 1
      → parent sha256 d p c s ≡ hash_parts sha256 d s.bytes c.bytes
  unfolding parent
  parent-odd d p c s h = ground arith

  -- The node above a position and its neighbour stands at half the position.
  parent-at :
      (level p m : ℕ) (zero_child : CommitmentRoot) (roots : List CommitmentRoot)
      → p < length roots
      → length roots ≡ 2 * m
      → parent sha256 (node_domain kind level) p (at roots p) (at roots (bit_xor p 1))
        ≡ at
            (parents sha256 kind level zero_child
              (node sha256 kind level zero_child zero_child)
              roots)
            (p / 2)
  parent-at level p m zc roots below even =
      let above = at-parents level (p / 2) zc roots (omega arith) in
      let sides : (p % 2 ≡ 0) ⊎ (p % 2 ≡ 1) = ground arith in
      elim sides [
        | inl h ↦
            let here : 2 * (p / 2) ≡ p = omega arith in
            let there : suc (2 * (p / 2)) ≡ bit_xor p 1 = omega (arith, flip_bit_0 p) in
            parent-even _ p _ _ h
            ∙ sym (above ∙ (λ i. node sha256 kind level (at roots (here i)) (at roots (there i))))
        | inr h ↦
            let here : suc (2 * (p / 2)) ≡ p = omega arith in
            let there : 2 * (p / 2) ≡ bit_xor p 1 = omega (arith, flip_bit_0 p) in
            parent-odd _ p _ _ h
            ∙ sym (above ∙ (λ i. node sha256 kind level (at roots (there i)) (at roots (here i))))
      ]

  -- The root of the stored levels.
  abbrev pub top_root : ℕ → ℕ → CommitmentRoot → List CommitmentRoot → CommitmentRoot
  top_root zero level zc current = at current 0
  top_root (suc n) level zc current =
      let zp = node sha256 kind level zc zc in
      top_root n (level + 1) zp (parents sha256 kind level zc zp current)

  pub top-top_root :
      (n level : ℕ) (zc : CommitmentRoot) (current : List CommitmentRoot)
      → length current ≡ 2 ^ n
      → top (store_levels sha256 kind n level zc current).levels ≡ ok (top_root n level zc current)
  unfolding store_levels
  top-top_root zero level zc [] h = absurd (omega arith)
  top-top_root zero level zc (x ∷ roots) h = refl
  top-top_root (suc zero) level zc current h =
      let zp = node sha256 kind level zc zc in
      top-top_root zero (level + 1) zp (parents sha256 kind level zc zp current)
        (length-parents level 1 zc zp current h)
  top-top_root (suc (suc n)) level zc current h =
      let zp = node sha256 kind level zc zc in
      top-top_root (suc n) (level + 1) zp (parents sha256 kind level zc zp current)
        (length-parents level (2 ^ suc n) zc zp current (omega (arith, pow-suc 2 (suc n))))

  -- From a position of a level, the siblings found lead to the root of the stored levels.
  pub stored_siblings-climb :
      (n level p : ℕ) (zc : CommitmentRoot) (current tail : List CommitmentRoot)
      → length current ≡ 2 ^ n
      → p < 2 ^ n
      → (ss : List CommitmentRoot) × (stored_siblings n
            (store_levels sha256 kind n level zc current).levels
            p
          ≡ ok ss)
        × (length ss ≡ n)
        × (climb sha256 (node_domain kind) level p (at current p) (ss ++ tail)
            ≡ climb sha256 (node_domain kind) (level + n) 0 (top_root n level zc current) tail)
  unfolding stored_siblings store_levels climb
  stored_siblings-climb zero level p zc current tail size below =
      let start : p ≡ 0 = omega arith in
      let same : level ≡ level + 0 = omega arith in
      (
        [],
        refl,
        refl,
        λ i. climb sha256 (node_domain kind) (same i) (start i) (at current (start i)) tail,
      )
  stored_siblings-climb (suc n) level p zc current tail size below =
      let zp = node sha256 kind level zc zc in
      let next = parents sha256 kind level zc zp current in
      let inside : p < length current = omega arith in
      let double = pow-suc 2 n in
      let beside : bit_xor p 1 < length current =
        omega (arith, flip_bit_0 p, double, size, below) in
      let ih =
        stored_siblings-climb n (level + 1) (p / 2) zp next tail
          (length-parents level (2 ^ n) zc zp current (omega (arith, double)))
          (omega (arith, double)) in
      let s = at current (bit_xor p 1) in
      let found : ok_or (get_elem? current (bit_xor p 1)) TreeShapeError.tree_shape ≡ ok s =
        ap (λ o. ok_or o TreeShapeError.tree_shape) (get_elem?-at current (bit_xor p 1) beside) in
      let step = parent-at level p (2 ^ n) zc current inside (omega (arith, double)) in
      let depth : level + 1 + n ≡ level + suc n = omega arith in
      (
        s ∷ ih.0,
        rw (found, ih.1) refl,
        ap suc ih.2,
        ap (λ c. climb sha256 (node_domain kind) (level + 1) (p / 2) c (ih.0 ++ tail)) step
            ∙ ih.3
            ∙ ap (λ d. climb sha256 (node_domain kind) d 0 (top_root n (level + 1) zp next) tail)
                depth,
      )
