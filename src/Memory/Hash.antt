-- ===== src/Memory/Hash.antt =====
-- Domain-separated hashing (crates/zksm83-memory/src/commitment.rs). SHA-256 is a parameter.
use zksm.Prelude.{ℕ, zero, suc, ◌+◌, ◌/◌, ◌%◌, List, [], ◌∷◌, ◌++◌, length, replicate}

-- The 32 bytes of a `CommitmentRoot`.
pub record CommitmentRoot : Type 0 where
  pub bytes : List ℕ

abbrev pub zero_root : CommitmentRoot
zero_root = record { bytes = replicate 32 0 }

-- "zksm83/witness-auth-sha256/v1" in ASCII
abbrev pub hash_protocol : List ℕ
hash_protocol =
    0x7a ∷ 0x6b ∷ 0x73 ∷ 0x6d ∷ 0x38 ∷ 0x33 ∷ 0x2f ∷ 0x77 ∷ 0x69 ∷ 0x74 ∷ 0x6e ∷ 0x65 ∷ 0x73 ∷ 0x73
    ∷ 0x2d ∷ 0x61 ∷ 0x75 ∷ 0x74 ∷ 0x68 ∷ 0x2d ∷ 0x73 ∷ 0x68 ∷ 0x61 ∷ 0x32 ∷ 0x35 ∷ 0x36 ∷ 0x2f
    ∷ 0x76 ∷ 0x31 ∷ []

pub data HashDomain : Type 0 where
  rom_leaf memory_leaf : HashDomain
  rom_node memory_node : ℕ → HashDomain
  input_empty output_empty input_element output_element : HashDomain
  bus_transcript_empty bus_transcript_element : HashDomain
  isa_transcript_empty isa_transcript_element : HashDomain

unfoldable pub code : HashDomain → ℕ
code HashDomain.rom_leaf = 0x1000
code HashDomain.memory_leaf = 0x2000
code (HashDomain.rom_node level) = 0x3000 + level
code (HashDomain.memory_node level) = 0x4000 + level
code HashDomain.input_empty = 0x5000
code HashDomain.output_empty = 0x6000
code HashDomain.input_element = 0x7000
code HashDomain.output_element = 0x8000
code HashDomain.bus_transcript_empty = 0x9000
code HashDomain.bus_transcript_element = 0xa000
code HashDomain.isa_transcript_empty = 0xb000
code HashDomain.isa_transcript_element = 0xc000

-- `to_le_bytes`, to the given number of bytes.
unfoldable pub le_bytes : ℕ → ℕ → List ℕ
le_bytes zero n = []
le_bytes (suc k) n = n % 256 ∷ le_bytes k (n / 256)

-- What `hash_parts` feeds to SHA-256.
unfoldable pub preimage : HashDomain → List ℕ → List ℕ → List ℕ
unfolding code le_bytes
preimage domain left right =
    hash_protocol
    ++ (le_bytes 2 (code domain)
        ++ (le_bytes 16 (length left) ++ (left ++ (le_bytes 16 (length right) ++ right))))

unfoldable pub hash_parts : (List ℕ → List ℕ) → HashDomain → List ℕ → List ℕ → CommitmentRoot
unfolding preimage
hash_parts sha256 domain left right = record { bytes = sha256 (preimage domain left right) }
