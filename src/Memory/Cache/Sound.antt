-- ===== src/Memory/Cache/Sound.antt =====
-- Verification with a cache (crates/zksm83-memory/src/transcript.rs) beside verification without.
use mathlib.Core.Path.{subst}
use zksm.Prelude.{
  ℕ, ◌≡◌, refl, sym, ap, ◌∙◌, Bool, true, false, not, ◌&&◌, ◌==◌, ==_iff, leb, if◌then◌else◌, List,
  [], ◌∷◌, Option, none, some, Result, ◌>>◌, ok, err,
}
use zksm.Memory.Hash.{CommitmentRoot, HashDomain}
use zksm.Memory.Binding.{same_root-eq}
use zksm.Memory.Address.{owner, is_rom}
use zksm.Memory.Witness.{
  MerklePath, RomRead, MemoryRead, MemoryWrite, MemoryTranscriptError, address_limit, same_root,
  derive_root, mutable_root, verify_rom_read, verify_read, verify_write, require_root,
  validate_memory_address, validate_physical_memory_address,
}
use zksm.Memory.Cache.{
  VerificationKey, WriteKey, Verified, VerifiedWrite, Cache, WriteCache, same_key, same_write_key,
  same_siblings, same_path, find, insert_bounded, hit, write_hit, hit_root, checked_address,
  read_checked, write_checked, verify_rom_cached, verify_read_cached, verify_write_cached,
}
use zksm.Memory.Cache.Entries.{Holds, find-Holds, insert_bounded-Holds, insert_below-Holds}

both : (a b : Bool) → (a && b) ≡ true → (a ≡ true) × (b ≡ true)
both true b h = (refl, h)
both false b h = absurd (cc h)

==-eq : (a b : ℕ) → (a == b) ≡ true → a ≡ b
==-eq a b h = (==_iff a b).0 h

same_siblings-eq : (xs ys : List CommitmentRoot) → same_siblings xs ys ≡ true → xs ≡ ys
same_siblings-eq [] [] h = refl
same_siblings-eq [] (y ∷ ys) h = absurd (cc h)
same_siblings-eq (x ∷ xs) [] h = absurd (cc h)
same_siblings-eq (x ∷ xs) (y ∷ ys) h =
    let p = both (same_root x y) (same_siblings xs ys) h in
    cc (same_root-eq x y p.0, same_siblings-eq xs ys p.1)

same_path-eq : (a b : MerklePath) → same_path a b ≡ true → a ≡ b
same_path-eq a b h = ap (λ l. record { siblings = l }) (same_siblings-eq a.siblings b.siblings h)

module _ (sha256 : List ℕ → List ℕ) where
  -- What makes an entry of each cache right.
  abbrev pub RomVerified : VerificationKey → Verified → Type 0
  RomVerified key w =
      same_root
        (derive_root sha256 HashDomain.rom_leaf HashDomain.rom_node key.physical_address w.value
          w.path)
        key.expected_root
      ≡ true

  abbrev pub ReadVerified : VerificationKey → Verified → Type 0
  ReadVerified key w =
      same_root (mutable_root sha256 key.physical_address w.value w.path) key.expected_root ≡ true

  abbrev pub WriteVerified : WriteKey → VerifiedWrite → Type 0
  WriteVerified key w =
      (same_root (mutable_root sha256 key.physical_address w.before w.path) key.expected_root
        ≡ true)
      × (mutable_root sha256 key.physical_address key.after w.path ≡ w.after_root)

same_key-eq : (a b : VerificationKey) → same_key a b ≡ true → a ≡ b
same_key-eq a b h =
    let p = both (same_root a.expected_root b.expected_root) _ h in
    let root = same_root-eq a.expected_root b.expected_root p.0 in
    let place = ==-eq _ _ p.1 in λ i. record { expected_root = root i; physical_address = place i }

same_write_key-eq : (a b : WriteKey) → same_write_key a b ≡ true → a ≡ b
same_write_key-eq a b h =
    let p = both (same_root a.expected_root b.expected_root) _ h in
    let q = both (a.physical_address == b.physical_address) (a.after == b.after) p.1 in
    let root = same_root-eq a.expected_root b.expected_root p.0 in
    let place = ==-eq _ _ q.0 in
    let after = ==-eq _ _ q.1 in
    λ i. record { expected_root = root i; physical_address = place i; after = after i }

-- A hit is a witness that was entered for the key.
hit-found :
    (P : VerificationKey → Verified → Type 0) (cache : Cache) (key : VerificationKey) (w : Verified)
    (o : Option Verified)
    → Holds P cache
    → find same_key cache key ≡ o
    → hit o w ≡ true
    → P key w
hit-found P cache key w none holds e h = absurd (cc h)
hit-found P cache key w (some found) holds e h =
    let entered = find-Holds same_key P cache key found holds e in
    let p = both (found.value == w.value) (same_path found.path w.path) h in
    let value = ==-eq _ _ p.0 in
    let path = same_path-eq found.path w.path p.1 in
    let same : found ≡ w = λ i. record { value = value i; path = path i } in
    subst (λ k. P k w) (same_key-eq entered.0 key entered.1) (subst (P entered.0) same entered.2)

hit-Holds :
    (P : VerificationKey → Verified → Type 0) (cache : Cache) (key : VerificationKey) (w : Verified)
    → Holds P cache
    → hit (find same_key cache key) w ≡ true
    → P key w
hit-Holds P cache key w holds h = hit-found P cache key w (find same_key cache key) holds refl h

write_hit-found :
    (P : WriteKey → VerifiedWrite → Type 0) (cache : WriteCache) (key : WriteKey) (w : MemoryWrite)
    (o : Option VerifiedWrite) (root : CommitmentRoot)
    → Holds P cache
    → find same_write_key cache key ≡ o
    → write_hit o w ≡ true
    → P key (record { before = w.before; path = w.path; after_root = hit_root o root })
write_hit-found P cache key w none root holds e h = absurd (cc h)
write_hit-found P cache key w (some found) root holds e h =
    let entered = find-Holds same_write_key P cache key found holds e in
    let p = both (found.before == w.before) (same_path found.path w.path) h in
    let before = ==-eq _ _ p.0 in
    let path = same_path-eq found.path w.path p.1 in
    let same : (◌≡◌ {A = VerifiedWrite} found
        (record { before = w.before; path = w.path; after_root = found.after_root })) =
      λ i. record { before = before i; path = path i; after_root = found.after_root } in
    subst (λ k. P k (record { before = w.before; path = w.path; after_root = found.after_root }))
      (same_write_key-eq entered.0 key entered.1) (subst (P entered.0) same entered.2)

write_hit-Holds :
    (P : WriteKey → VerifiedWrite → Type 0) (cache : WriteCache) (key : WriteKey) (w : MemoryWrite)
    (root : CommitmentRoot)
    → Holds P cache
    → write_hit (find same_write_key cache key) w ≡ true
    → P key (record {
      before = w.before;
      path = w.path;
      after_root = hit_root (find same_write_key cache key) root;
    })
write_hit-Holds P cache key w root holds h =
    write_hit-found P cache key w (find same_write_key cache key) root holds refl h

module _ {R C : Type 0} (Inv : C → Type 0) where
  -- A result with a cache that answers `r` and keeps the cache right.
  abbrev pub Answers : R × C → R → Type 0
  Answers t r = (t.0 ≡ r) × Inv t.1

  guard-Answers :
      (b : Bool) (e : R) (cache : C) (t : R × C) (r : R)
      → Inv cache
      → Answers t r
      → Answers (if b then (e, cache) else t) (if b then e else r)
  guard-Answers true e cache t r inv h = (refl, inv)
  guard-Answers false e cache t r inv h = h

  -- A hit, a mismatch, or a new entry.
  lookup-Answers :
      (found matches : Bool) (known good fail : R) (cache fresh : C)
      → Inv cache
      → (found ≡ true → (matches ≡ true) × (known ≡ good))
      → (matches ≡ true → Inv fresh)
      → Answers
          (if found then (known, cache) else if not matches then (fail, cache) else (good, fresh))
          (if not matches then fail else good)
  lookup-Answers true true known good fail cache fresh inv sound new = ((sound refl).1, inv)
  lookup-Answers true false known good fail cache fresh inv sound new = absurd (cc (sound refl).0)
  lookup-Answers false true known good fail cache fresh inv sound new = (refl, new refl)
  lookup-Answers false false known good fail cache fresh inv sound new = (refl, inv)

module _ {A : Type 0} where
  checks_assoc :
      (a b : Result {0} MemoryTranscriptError Unit) (k : Result MemoryTranscriptError A)
      → ((a >> b) >> k) ≡ (a >> (b >> k))
  checks_assoc (err e) b k = refl
  checks_assoc (ok _) b k = refl

  required :
      (b : Bool) (e : MemoryTranscriptError) (x : A) (r : Result {0} MemoryTranscriptError Unit)
      → (if b then err e else ok tt) ≡ r
      → (if b then err e else ok x) ≡ (r >> ok x)
  required true e x r h = cc (ap (λ o. o >> ok x) h)
  required false e x r h = cc (ap (λ o. o >> ok x) h)

module _ (sha256 : List ℕ → List ℕ) where
  -- With a cache of verified ROM witnesses, verification answers as without, and the cache keeps
  -- verified witnesses only.
  pub verify_rom_cached-verify_rom_read :
      (root : CommitmentRoot) (r : RomRead) (cache : Cache)
      → Holds (RomVerified sha256) cache
      → ((verify_rom_cached sha256 root r cache).0 ≡ verify_rom_read sha256 root r)
        × Holds (RomVerified sha256) (verify_rom_cached sha256 root r cache).1
  unfolding verify_rom_cached verify_rom_read
  verify_rom_cached-verify_rom_read root r cache holds =
      let P = RomVerified sha256 in
      let key : VerificationKey = record {
        expected_root = root;
        physical_address = r.physical_address;
      } in
      let witness : Verified = record { value = r.value; path = r.path } in
      guard-Answers (Holds P) (not (is_rom (owner r.address))) _ cache _ _ holds (
        guard-Answers (Holds P) (leb address_limit r.physical_address) _ cache _ _ holds (
          lookup-Answers (Holds P) (hit (find same_key cache key) witness) _ (ok tt) (ok tt) _ cache
            _ holds (λ h. (hit-Holds P cache key witness holds h, refl))
            (λ h. insert_below-Holds same_key P cache key witness h holds)))

  read_checked-Answers :
      (c : Result {0} MemoryTranscriptError Unit) (root : CommitmentRoot) (r : MemoryRead)
      (cache : Cache)
      → Holds (ReadVerified sha256) cache
      → Answers
          (Holds (ReadVerified sha256))
          (read_checked sha256 c root r cache)
          (c >> require_root sha256 root (mutable_root sha256 r.physical_address r.value r.path))
  read_checked-Answers (err e) root r cache holds = (refl, holds)
  read_checked-Answers (ok _) root r cache holds =
      let P = ReadVerified sha256 in
      let key : VerificationKey = record {
        expected_root = root;
        physical_address = r.physical_address;
      } in
      let witness : Verified = record { value = r.value; path = r.path } in
      lookup-Answers (Holds P) (hit (find same_key cache key) witness) _ (ok tt) (ok tt) _ cache _
        holds (λ h. (hit-Holds P cache key witness holds h, refl))
        (λ h. insert_bounded-Holds same_key P cache key witness h holds)

  -- With a cache of verified reads, verification of a read answers as without, and the cache keeps
  -- verified reads only.
  pub verify_read_cached-verify_read :
      (root : CommitmentRoot) (r : MemoryRead) (cache : Cache)
      → Holds (ReadVerified sha256) cache
      → ((verify_read_cached sha256 root r cache).0 ≡ verify_read sha256 root r)
        × Holds (ReadVerified sha256) (verify_read_cached sha256 root r cache).1
  unfolding verify_read_cached verify_read
  verify_read_cached-verify_read root r cache holds =
      let p =
        read_checked-Answers (checked_address sha256 r.address r.physical_address) root r cache
          holds in
      (
        p.0
            ∙ checks_assoc (validate_memory_address sha256 r.address)
                (validate_physical_memory_address sha256 r.physical_address) _,
        p.1,
      )

  write_checked-Answers :
      (c : Result {0} MemoryTranscriptError Unit) (root : CommitmentRoot) (w : MemoryWrite)
      (cache : WriteCache)
      → Holds (WriteVerified sha256) cache
      → Answers (Holds (WriteVerified sha256)) (write_checked sha256 c root w cache) (
          c
          >> (require_root sha256 root (mutable_root sha256 w.physical_address w.before w.path)
              >> ok (mutable_root sha256 w.physical_address w.after w.path)))
  write_checked-Answers (err e) root w cache holds = (refl, holds)
  write_checked-Answers (ok _) root w cache holds =
      let P = WriteVerified sha256 in
      let key : WriteKey = record {
        expected_root = root;
        physical_address = w.physical_address;
        after = w.after;
      } in
      let before_root = mutable_root sha256 w.physical_address w.before w.path in
      let after_root = mutable_root sha256 w.physical_address w.after w.path in
      let p =
        lookup-Answers (Holds P) (write_hit (find same_write_key cache key) w)
          (same_root before_root root) (ok (hit_root (find same_write_key cache key) root))
          (ok after_root) (err (MemoryTranscriptError.root_mismatch root before_root)) cache
          (insert_bounded same_write_key cache key
            (record { before = w.before; path = w.path; after_root = after_root }))
          holds (λ h. let q = write_hit-Holds P cache key w root holds h in (q.0, ap ok (sym q.1)))
          (λ h. insert_bounded-Holds same_write_key P cache key _ (h, refl) holds) in
      (p.0 ∙ required (not (same_root before_root root)) _ after_root _ refl, p.1)

  -- With a cache of verified writes, verification of a write answers as without, the root after
  -- the write included, and the cache keeps verified writes only.
  pub verify_write_cached-verify_write :
      (root : CommitmentRoot) (w : MemoryWrite) (cache : WriteCache)
      → Holds (WriteVerified sha256) cache
      → ((verify_write_cached sha256 root w cache).0 ≡ verify_write sha256 root w)
        × Holds (WriteVerified sha256) (verify_write_cached sha256 root w cache).1
  unfolding verify_write_cached verify_write
  verify_write_cached-verify_write root w cache holds =
      let p =
        write_checked-Answers (checked_address sha256 w.address w.physical_address) root w cache
          holds in
      (
        p.0
            ∙ checks_assoc (validate_memory_address sha256 w.address)
                (validate_physical_memory_address sha256 w.physical_address) _,
        p.1,
      )
