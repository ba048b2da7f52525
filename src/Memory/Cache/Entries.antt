-- ===== src/Memory/Cache/Entries.antt =====
-- The entries of a cache (crates/zksm83-memory/src/transcript.rs): what holds of all of them.
use mathlib.Core.Path.{subst}
use zksm.Prelude.{
  ◌≡◌, refl, ◌⊎◌, inl, inr, Bool, true, false, if◌then◌else◌, List, [], ◌∷◌, Option, some,
}
use zksm.Memory.Cache.{find, remove, insert, insert_bounded, insert_below}

-- Every entry of a cache satisfies `P`.
pub data Holds {K V : Type 0} (P : K → V → Type 0) : List (K × V) → Type 0 where
  nil : Holds P []
  more :
      (entry : K × V) (entries : List (K × V))
      → P entry.0 entry.1
      → Holds P entries
      → Holds P (entry ∷ entries)

module _ {K V : Type 0} (same : K → K → Bool) (P : K → V → Type 0) where
  find-if :
      (b : Bool) (v w : V) (o : Option V)
      → (if b then some v else o) ≡ some w
      → ((b ≡ true) × (v ≡ w)) ⊎ (o ≡ some w)
  find-if true v w o h = inl (refl, cc)
  find-if false v w o h = inr h

  -- What is found was entered under an equal key.
  pub find-Holds :
      (cache : List (K × V)) (key : K) (v : V)
      → Holds P cache
      → find same cache key ≡ some v
      → (k : K) × (same k key ≡ true) × P k v
  unfolding find
  find-Holds [] key v h e = absurd (cc e)
  find-Holds (_ ∷ _) key v (Holds.more entry entries p rest) e =
      elim (find-if (same entry.0 key) entry.1 v (find same entries key) e) [
        | inl q ↦ (entry.0, q.0, subst (P entry.0) q.1 p)
        | inr q ↦ find-Holds entries key v rest q
      ]

  dropped-Holds :
      (b : Bool) (entry : K × V) (entries : List (K × V))
      → P entry.0 entry.1
      → Holds P entries
      → Holds P (if b then entries else entry ∷ entries)
  dropped-Holds true entry entries p h = h
  dropped-Holds false entry entries p h = Holds.more entry entries p h

  remove-Holds : (cache : List (K × V)) (key : K) → Holds P cache → Holds P (remove same cache key)
  unfolding remove
  remove-Holds [] key h = h
  remove-Holds (_ ∷ _) key (Holds.more entry entries p rest) =
      dropped-Holds (same entry.0 key) entry (remove same entries key) p
        (remove-Holds entries key rest)

  insert-Holds :
      (cache : List (K × V)) (key : K) (v : V)
      → P key v
      → Holds P cache
      → Holds P (insert same cache key v)
  unfolding insert
  insert-Holds cache key v p h = Holds.more (key, v) _ p (remove-Holds cache key h)

  chosen-Holds :
      (b : Bool) (xs ys : List (K × V)) → Holds P xs → Holds P ys → Holds P (if b then xs else ys)
  chosen-Holds true xs ys p q = p
  chosen-Holds false xs ys p q = q

  pub insert_bounded-Holds :
      (cache : List (K × V)) (key : K) (v : V)
      → P key v
      → Holds P cache
      → Holds P (insert_bounded same cache key v)
  unfolding insert_bounded
  insert_bounded-Holds cache key v p h =
      chosen-Holds _ _ _ (insert-Holds [] key v p Holds.nil) (insert-Holds cache key v p h)

  pub insert_below-Holds :
      (cache : List (K × V)) (key : K) (v : V)
      → P key v
      → Holds P cache
      → Holds P (insert_below same cache key v)
  unfolding insert_below
  insert_below-Holds cache key v p h = chosen-Holds _ _ _ (insert-Holds cache key v p h) h
