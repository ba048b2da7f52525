-- ===== src/Memory/Injective.antt =====
-- The preimages of `hash_parts` in crates/zksm83-memory/src/commitment.rs.
use mathlib.Core.Logic.{◌≢◌}
use zksm.Prelude.{
  ℕ, zero, suc, ◌/◌, ◌%◌, ◌^◌, ◌<◌, ◌≡◌, refl, sym, ap, ◌∙◌, ◌⊎◌, inl, inr, List, [], ◌∷◌, ◌++◌,
  length, arith,
}
use native.Mathlib.Nat.{pow-suc}
use zksm.Memory.Hash.{HashDomain, code, le_bytes, preimage, hash_protocol}

module _ {ℓ} {A : Type ℓ} where
  -- Two concatenations with heads of one length agree in both parts.
  pub append_cancel :
      (xs xs' ys ys' : List A)
      → length xs ≡ length xs'
      → xs ++ ys ≡ xs' ++ ys'
      → (xs ≡ xs') × (ys ≡ ys')
  append_cancel [] [] ys ys' h e = (refl, e)
  append_cancel [] (x ∷ xs) ys ys' h e = absurd (omega arith)
  append_cancel (x ∷ xs) [] ys ys' h e = absurd (omega arith)
  append_cancel (x ∷ xs) (x' ∷ xs') ys ys' h e =
      let rest = append_cancel xs xs' ys ys' (omega arith) (cc e) in (cc (e, rest.0), rest.1)

pub length-le_bytes : (k n : ℕ) → length (le_bytes k n) ≡ k
unfolding le_bytes
length-le_bytes zero n = refl
length-le_bytes (suc k) n = ap suc (length-le_bytes k (n / 256))

pub le_bytes_injective :
    (k n m : ℕ) → n < 256 ^ k → m < 256 ^ k → le_bytes k n ≡ le_bytes k m → n ≡ m
unfolding le_bytes
le_bytes_injective zero n m hn hm e = omega arith
le_bytes_injective (suc k) n m hn hm e =
    let heads : n % 256 ≡ m % 256 = cc e in
    let rest =
      le_bytes_injective k (n / 256) (m / 256) (omega (arith, pow-suc 256 k))
        (omega (arith, pow-suc 256 k)) (cc e) in
    omega arith

-- What a `Vec` or array can measure: its length is written as a `u128`.
abbrev pub IsMeasured : List ℕ → Type 0
IsMeasured xs = length xs < 256 ^ 16

-- Two parts written with their lengths agree if the bytes do.
measured_cancel :
    (xs xs' ys ys' : List ℕ)
    → IsMeasured xs
    → IsMeasured xs'
    → le_bytes 16 (length xs) ++ (xs ++ ys) ≡ le_bytes 16 (length xs') ++ (xs' ++ ys')
    → (xs ≡ xs') × (ys ≡ ys')
measured_cancel xs xs' ys ys' m m' e =
    let sizes =
      append_cancel _ _ _ _ (length-le_bytes 16 (length xs) ∙ sym (length-le_bytes 16 (length xs')))
        e in
    append_cancel xs xs' ys ys' (le_bytes_injective 16 _ _ m m' sizes.0) sizes.1

-- In one domain, the preimage determines both parts.
pub preimage_injective :
    (domain : HashDomain) (left left' right right' : List ℕ)
    → IsMeasured left
    → IsMeasured left'
    → IsMeasured right
    → IsMeasured right'
    → preimage domain left right ≡ preimage domain left' right'
    → (left ≡ left') × (right ≡ right')
unfolding preimage
preimage_injective domain left left' right right' l l' r r' e =
    let protocol = append_cancel hash_protocol hash_protocol _ _ refl e in
    let domains =
      append_cancel (le_bytes 2 (code domain)) (le_bytes 2 (code domain)) _ _ refl protocol.1 in
    let lefts = measured_cancel left left' _ _ l l' domains.1 in
    let sizes =
      append_cancel (le_bytes 16 (length right)) (le_bytes 16 (length right')) _ _
        (length-le_bytes 16 (length right) ∙ sym (length-le_bytes 16 (length right'))) lefts.1 in
    (lefts.0, sizes.1)

-- Byte strings are equal or not.
pub bytes-cases : (xs ys : List ℕ) → (xs ≡ ys) ⊎ (xs ≢ ys)
bytes-cases [] [] = inl refl
bytes-cases [] (y ∷ ys) = inr (λ e. cc e)
bytes-cases (x ∷ xs) [] = inr (λ e. cc e)
bytes-cases (x ∷ xs) (y ∷ ys) = elim (bytes-cases xs ys) [
  | inr differ ↦ inr (λ e. differ (cc e))
  | inl tails ↦
      let heads : (x ≡ y) ⊎ (x ≢ y) = ground arith in
      elim heads [ inl h ↦ inl (cc (h, tails)) | inr n ↦ inr (λ e. n (cc e)) ]
]
