-- ===== src/Memory/Image/Written.antt =====
-- A write of the prover's tree (crates/zksm83-memory/src/image.rs) beside building the tree again.
use mathlib.Core.List.{append_assoc}
use native.Mathlib.Nat.{pow-suc}
use zksm.Prelude.{
  ℕ, zero, suc, ◌+◌, ◌-◌, ◌*◌, ◌/◌, ◌%◌, ◌^◌, ◌<◌, ◌≡◌, refl, sym, ap, ◌∙◌, List, [], ◌∷◌, ◌++◌,
  length, length-set, length-append, get_elem?, set, ok, ok_or, arith,
}
use zksm.Memory.Hash.{CommitmentRoot}
use zksm.Memory.Image.{TreeKind, TreeShapeError, node, parents, store_levels, extend}
use zksm.Memory.Image.Path.{at, get_elem?-at, paired, length-parents}
use zksm.Memory.Image.Verified.{get_elem?-middle}
use zksm.Memory.Image.Write.{put, parent_of, write_levels, write_root}

module _ (sha256 : List ℕ → List ℕ) (kind : TreeKind) where
  -- One new root in a level is one new root above it.
  parents-set :
      (level p : ℕ) (zc x : CommitmentRoot) (roots : List CommitmentRoot) (n : ℕ)
      → length roots ≡ 2 * n
      → p < 2 * n
      → parents sha256 kind level zc (node sha256 kind level zc zc) (set roots p x)
        ≡ set (parents sha256 kind level zc (node sha256 kind level zc zc) roots) (p / 2) (
            node sha256 kind level
              (at (set roots p x) (p - p % 2))
              (at (set roots p x) (suc (p - p % 2))))
  unfolding parents
  parents-set level p zc x [] n size below = absurd (omega arith)
  parents-set level p zc x (y ∷ []) n size below = absurd (omega arith)
  parents-set level zero zc x (y ∷ z ∷ roots) n size below =
      ap (λ r. r ∷ parents sha256 kind level zc (node sha256 kind level zc zc) roots)
        (paired sha256 kind _ level x z zc refl)
  parents-set level (suc zero) zc x (y ∷ z ∷ roots) n size below =
      ap (λ r. r ∷ parents sha256 kind level zc (node sha256 kind level zc zc) roots)
        (paired sha256 kind _ level y x zc refl)
  parents-set level (suc (suc p)) zc x (y ∷ z ∷ roots) zero size below = absurd (omega arith)
  parents-set level (suc (suc p)) zc x (y ∷ z ∷ roots) (suc n) size below =
      let half : suc (suc p) / 2 ≡ suc (p / 2) = omega arith in
      let even : suc (suc p) - suc (suc p) % 2 ≡ suc (suc (p - p % 2)) = omega arith in
      let ih = parents-set level p zc x roots n (omega arith) (omega arith) in
      rw (half, even) (cc ih)

  -- The zero roots do not depend on the bytes.
  pub store_levels-zero_roots :
      (n level : ℕ) (zc : CommitmentRoot) (xs ys : List CommitmentRoot)
      → ((store_levels sha256 kind n level zc xs).zero_roots
          ≡ (store_levels sha256 kind n level zc ys).zero_roots)
        × ((store_levels sha256 kind n level zc xs).zero_child
            ≡ (store_levels sha256 kind n level zc ys).zero_child)
  unfolding store_levels
  store_levels-zero_roots zero level zc xs ys = (refl, refl)
  store_levels-zero_roots (suc n) level zc xs ys =
      let zp = node sha256 kind level zc zc in
      let ih =
        store_levels-zero_roots n (level + 1) zp (parents sha256 kind level zc zp xs)
          (parents sha256 kind level zc zp ys) in
      (ap (λ l. zp ∷ l) ih.0, ih.1)

  pub extend-zero_roots :
      (n level : ℕ) (zc r s : CommitmentRoot)
      → (extend sha256 kind n level r zc).zero_roots ≡ (extend sha256 kind n level s zc).zero_roots
  unfolding extend
  extend-zero_roots zero level zc r s = refl
  extend-zero_roots (suc n) level zc r s =
      let zp = node sha256 kind level zc zc in
      ap (λ l. zp ∷ l)
        (extend-zero_roots n (level + 1) zp (node sha256 kind level r zc)
          (node sha256 kind level s zc))

  pub write_root-extend :
      (n level : ℕ) (root zc : CommitmentRoot) (pre : List CommitmentRoot)
      → length pre ≡ level
      → write_root sha256 kind n
          (pre ++ (zc ∷ (extend sha256 kind n level root zc).zero_roots))
          level
          root
        ≡ ok (extend sha256 kind n level root zc).root
  unfolding write_root extend
  write_root-extend zero level root zc pre size = refl
  write_root-extend (suc n) level root zc pre size =
      let zp = node sha256 kind level zc zc in
      let above = node sha256 kind level root zc in
      let more = zp ∷ (extend sha256 kind n (level + 1) above zp).zero_roots in
      let ih =
        write_root-extend n (level + 1) above zp (pre ++ (zc ∷ []))
          (omega (arith, length-append pre (zc ∷ []))) in
      let found : ok_or (get_elem? (pre ++ (zc ∷ more)) level) TreeShapeError.tree_shape ≡ ok zc =
        ap (λ o. ok_or o TreeShapeError.tree_shape)
          (ap (get_elem? (pre ++ (zc ∷ more))) (sym size) ∙ get_elem?-middle pre zc more) in
      rw found (
        ap (λ l. write_root sha256 kind n l (level + 1) above)
          (sym (append_assoc pre (zc ∷ []) more))
        ∙ ih)

  -- The levels above the first.
  abbrev pub above_levels :
      ℕ → ℕ → CommitmentRoot → List CommitmentRoot → List (List CommitmentRoot)
  above_levels zero level zc current = []
  above_levels (suc n) level zc current =
      let zp = node sha256 kind level zc zc in
      (store_levels sha256 kind n (level + 1) zp (parents sha256 kind level zc zp current)).levels

  pub store_levels-above :
      (n level : ℕ) (zc : CommitmentRoot) (current : List CommitmentRoot)
      → (store_levels sha256 kind n level zc current).levels
        ≡ current ∷ above_levels n level zc current
  unfolding store_levels
  store_levels-above zero level zc current = refl
  store_levels-above (suc n) level zc current = refl

  found-at :
      (roots : List CommitmentRoot) (i : ℕ)
      → i < length roots
      → ok_or (get_elem? roots i) TreeShapeError.tree_shape ≡ ok (at roots i)
  found-at roots i below = ap (λ o. ok_or o TreeShapeError.tree_shape) (get_elem?-at roots i below)

  pub put-set :
      (roots : List CommitmentRoot) (i : ℕ) (x : CommitmentRoot)
      → i < length roots
      → put roots i x ≡ ok (set roots i x)
  put-set roots i x below = rw (found-at roots i below) refl

  abbrev joined : List CommitmentRoot → ℕ → ℕ → CommitmentRoot
  joined roots level p = node sha256 kind level (at roots (p - p % 2)) (at roots (suc (p - p % 2)))

  parent_of-joined :
      (roots : List CommitmentRoot) (level p n : ℕ)
      → length roots ≡ 2 * n
      → p < 2 * n
      → parent_of sha256 kind roots level p ≡ ok (joined roots level p)
  parent_of-joined roots level p n size below =
      let even : p - p % 2 < length roots = omega arith in
      let odd : suc (p - p % 2) < length roots = omega arith in
      rw (found-at roots (p - p % 2) even, found-at roots (suc (p - p % 2)) odd) refl

  -- The levels after a write are the levels of the written row.
  pub write_levels-set :
      (n level p : ℕ) (zc x : CommitmentRoot) (current : List CommitmentRoot)
      → length current ≡ 2 ^ n
      → p < 2 ^ n
      → write_levels sha256 kind n level p (set current p x) (above_levels n level zc current)
        ≡ ok (store_levels sha256 kind n level zc (set current p x)).levels
  unfolding write_levels store_levels
  write_levels-set zero level p zc x current size below = refl
  write_levels-set (suc n) level p zc x current size below =
      let zp = node sha256 kind level zc zc in
      let next = parents sha256 kind level zc zp current in
      let written = set current p x in
      let parent = joined written level p in
      let double = pow-suc 2 n in
      let height = length-parents sha256 kind level (2 ^ n) zc zp current (omega (arith, double)) in
      let ih =
        write_levels-set n (level + 1) (p / 2) zp parent next height (omega (arith, double)) in
      let row =
        parents-set level p zc x current (2 ^ n) (omega (arith, double)) (omega (arith, double)) in
      let joins =
        parent_of-joined written level p (2 ^ n) (omega (arith, double, length-set current p x))
          (omega (arith, double)) in
      let puts = put-set next (p / 2) parent (omega (arith, double, height)) in
      rw (store_levels-above n (level + 1) zp next, joins, puts, ih, row) refl
