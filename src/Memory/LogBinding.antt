-- ===== src/Memory/LogBinding.antt =====
-- The logs of crates/zksm83-memory/src/log.rs against collisions of the hash.
use zksm.Prelude.{
  ℕ, ◌+◌, ◌≡◌, refl, sym, ap, ◌∙◌, ◌⊎◌, inl, inr, List, [], ◌∷◌, ◌++◌, length, ok, and_then-ok,
  ok_injective, arith,
}
use zksm.Memory.Hash.{hash_parts, le_bytes}
use zksm.Memory.Injective.{IsMeasured, append_cancel, length-le_bytes}
use zksm.Memory.Binding.{Collision, IsRoot, of_bytes, hash_parts-binding, root-IsMeasured}
use zksm.Memory.Log.{LogKind, LogAccumulator, element_domain, empty, append, append_all, commit}

element : ℕ → ℕ → List ℕ
element index value = le_bytes 8 index ++ (value ∷ [])

element-IsMeasured : (index value : ℕ) → IsMeasured (element index value)
unfolding element le_bytes
element-IsMeasured index value = omega arith

element_value : (i j v w : ℕ) → element i v ≡ element j w → v ≡ w
unfolding element
element_value i j v w e = cc (
    (append_cancel (le_bytes 8 i) (le_bytes 8 j) (v ∷ []) (w ∷ [])
      (length-le_bytes 8 i ∙ sym (length-le_bytes 8 j)) e).1)

module _ (sha256 : List ℕ → List ℕ) (digest_length : (x : List ℕ) → length (sha256 x) ≡ 32) where
  record Appended (log : LogAccumulator) (value : ℕ) (next : LogAccumulator) : Type 0 where
    kind_same : next.kind ≡ log.kind
    index_next : next.next_index ≡ log.next_index + 1
    root_next :
        next.root
        ≡ hash_parts sha256 (element_domain log.kind) log.root.bytes (element log.next_index value)

  append-ok :
      (log next : LogAccumulator) (value : ℕ)
      → append sha256 log value ≡ ok next
      → Appended log value next
  unfolding append element
  append-ok log next value e = ground arith

  Appended-IsRoot :
      (log : LogAccumulator) (v : ℕ) (next : LogAccumulator)
      → Appended log v next
      → IsRoot next.root
  unfolding hash_parts
  Appended-IsRoot log v next x = rw x.root_next (digest_length _)

  append_all-binding :
      (vs ws : List ℕ) (log other a b : LogAccumulator)
      → IsRoot log.root
      → IsRoot other.root
      → log.kind ≡ other.kind
      → length vs ≡ length ws
      → append_all sha256 log vs ≡ ok a
      → append_all sha256 other ws ≡ ok b
      → a.root ≡ b.root
      → ((log.root ≡ other.root) × (vs ≡ ws)) ⊎ Collision sha256
  unfolding append_all
  append_all-binding [] [] log other a b hr hr' k len e e' same = inl (
    ap (λ l. l.root) (ok_injective log a e)
        ∙ same
        ∙ sym (ap (λ l. l.root) (ok_injective other b e')),
    refl,
  )
  append_all-binding [] (w ∷ ws) log other a b hr hr' k len e e' same = absurd (omega arith)
  append_all-binding (v ∷ vs) [] log other a b hr hr' k len e e' same = absurd (omega arith)
  append_all-binding (v ∷ vs) (w ∷ ws) log other a b hr hr' k len e e' same =
      let step = and_then-ok (append sha256 log v) (λ l. append_all sha256 l vs) a e in
      let step' = and_then-ok (append sha256 other w) (λ l. append_all sha256 l ws) b e' in
      let x = append-ok log step.0 v step.1 in
      let y = append-ok other step'.0 w step'.1 in
      elim (append_all-binding vs ws step.0 step'.0 a b (Appended-IsRoot log v step.0 x)
        (Appended-IsRoot other w step'.0 y) (x.kind_same ∙ k ∙ sym y.kind_same) (omega arith) step.2
        step'.2 same) [
          | inr collision ↦ inr collision
          | inl rest ↦
              elim (hash_parts-binding sha256 digest_length (element_domain log.kind) log.root.bytes
                other.root.bytes (element log.next_index v) (element other.next_index w)
                (root-IsMeasured sha256 digest_length log.root hr)
                (root-IsMeasured sha256 digest_length other.root hr')
                (element-IsMeasured log.next_index v) (element-IsMeasured other.next_index w)
                (sym x.root_next
                  ∙ rest.0
                  ∙ (y.root_next
                      ∙ ap
                          (λ d.
                            hash_parts sha256 (element_domain d) other.root.bytes
                              (element other.next_index w))
                          (sym k)))) [
                            | inr collision ↦ inr collision
                            | inl parts ↦
                                let heads =
                                  element_value log.next_index other.next_index v w parts.1 in
                                inl (ap of_bytes parts.0, cc (heads, rest.1))
                          ]
        ]

  commit_index :
      (log a : LogAccumulator) (vs : List ℕ)
      → append_all sha256 log vs ≡ ok a
      → a.next_index ≡ log.next_index + length vs
  unfolding append_all
  commit_index log a [] e =
      let same : log ≡ a = ok_injective log a e in omega (arith, ap (λ l. l.next_index) same)
  commit_index log a (v ∷ vs) e =
      let step = and_then-ok (append sha256 log v) (λ l. append_all sha256 l vs) a e in
      let rest = commit_index step.0 a vs step.2 in
      omega (arith, (append-ok log step.0 v step.1).index_next)

  -- For a hash of 32-byte digests, two logs of one kind with the same count and root hold the same
  -- values in the same order, or two inputs of the hash collide.
  pub commit-binding :
      (kind : LogKind) (vs ws : List ℕ) (a b : LogAccumulator)
      → commit sha256 kind vs ≡ ok a
      → commit sha256 kind ws ≡ ok b
      → a.next_index ≡ b.next_index
      → a.root ≡ b.root
      → (vs ≡ ws) ⊎ Collision sha256
  unfolding commit empty hash_parts
  commit-binding kind vs ws a b e e' count same =
      let start = empty sha256 kind in
      elim (append_all-binding vs ws start start a b (digest_length _) (digest_length _) refl
        (omega (arith, commit_index start a vs e, commit_index start b ws e')) e e' same) [
          | inl both ↦ inl both.1
          | inr collision ↦ inr collision
        ]
