-- ===== src/Memory/LogTotal.antt =====
-- When the logs of crates/zksm83-memory/src/log.rs take a list of values.
use zksm.Prelude.{ℕ, ◌+◌, ◌<◌, ◌≡◌, refl, List, [], ◌∷◌, ◌++◌, length, ok, u64_limit, arith}
use zksm.Memory.Hash.{hash_parts, le_bytes}
use zksm.Memory.Log.{LogKind, LogAccumulator, element_domain, empty, append, append_all, commit}

module _ (sha256 : List ℕ → List ℕ) where
  append-takes :
      (log : LogAccumulator) (v : ℕ)
      → log.next_index + 1 < u64_limit
      → (next : LogAccumulator) × (append sha256 log v ≡ ok next)
        × (next.next_index ≡ log.next_index + 1)
  unfolding append
  append-takes log v room =
      let next : LogAccumulator = record {
        kind = log.kind;
        next_index = log.next_index + 1;
        root =
            hash_parts sha256 (element_domain log.kind) log.root.bytes
              (le_bytes 8 log.next_index ++ (v ∷ []));
      } in
      (next, ground arith, refl)

  append_all-takes :
      (log : LogAccumulator) (vs : List ℕ)
      → log.next_index + length vs < u64_limit
      → (a : LogAccumulator) × (append_all sha256 log vs ≡ ok a)
        × (a.next_index ≡ log.next_index + length vs)
  unfolding append_all
  append_all-takes log [] room = (log, refl, omega arith)
  append_all-takes log (v ∷ vs) room =
      let first = append-takes log v (omega arith) in
      let rest = append_all-takes first.0 vs (omega (arith, first.2)) in
      (rest.0, rw (first.1) rest.1, omega (arith, first.2, rest.2))

  -- Fewer than 2^64 values are committed without error, and the count is their number.
  pub commit-takes :
      (kind : LogKind) (vs : List ℕ)
      → length vs < u64_limit
      → (a : LogAccumulator) × (commit sha256 kind vs ≡ ok a) × (a.next_index ≡ length vs)
  unfolding commit empty
  commit-takes kind vs room =
      let all = append_all-takes (empty sha256 kind) vs (omega arith) in
      (all.0, all.1, omega (arith, all.2))
