-- ===== src/Memory/Log.antt =====
-- Ordered commitments: the input and output logs (log.rs), the bus transcript (bus_transcript.rs) and
-- the ISA transcript (isa_transcript.rs) of crates/zksm83-memory/src.
use zksm.Prelude.{
  ℕ, ◌+◌, ◌^◌, ◌||◌, ltb, leb, if◌then◌else◌, List, [], ◌∷◌, ◌++◌, Result, ok, err, ◌>>=◌,
  u64_limit,
}
use zksm.Memory.Hash.{CommitmentRoot, HashDomain, hash_parts, le_bytes}

pub data LogKind : Type 0 where
  input output : LogKind

pub record LogAccumulator : Type 0 where
  pub kind : LogKind
  pub next_index : ℕ
  pub root : CommitmentRoot

pub data LogError : Type 0 where
  index_overflow : LogError

abbrev pub empty_domain : LogKind → HashDomain
empty_domain LogKind.input = HashDomain.input_empty
empty_domain LogKind.output = HashDomain.output_empty

abbrev pub element_domain : LogKind → HashDomain
element_domain LogKind.input = HashDomain.input_element
element_domain LogKind.output = HashDomain.output_element

-- `index.checked_add(1)` of a `u64`, or the error.
abbrev pub next_of : {E : Type 0} → E → ℕ → Result E ℕ
next_of e index = if ltb (index + 1) u64_limit then ok (index + 1) else err e

pub record BusTranscriptEvent : Type 0 where
  pub kind : ℕ
  pub address : ℕ
  pub physical_address : ℕ
  pub before : ℕ
  pub auxiliary : ℕ
  pub value : ℕ
  pub index : ℕ

unfoldable pub canonical_bytes : BusTranscriptEvent → ℕ → List ℕ
canonical_bytes e transcript_index =
    (e.kind ∷ [])
    ++ (le_bytes 2 e.address
        ++ (le_bytes 4 e.physical_address
            ++ ((e.before ∷ e.auxiliary ∷ e.value ∷ [])
                ++ (le_bytes 8 e.index ++ le_bytes 8 transcript_index))))

-- `BusTranscriptAccumulator` and `IsaTranscriptAccumulator`
pub record TranscriptAccumulator : Type 0 where
  pub next_index : ℕ
  pub root : CommitmentRoot

pub data BusTranscriptError : Type 0 where
  index_overflow non_canonical_event : BusTranscriptError

pub data IsaTranscriptError : Type 0 where
  index_overflow non_canonical_row : IsaTranscriptError

abbrev pub packed_row_limit : ℕ
packed_row_limit = 2 ^ 106

module _ (sha256 : List ℕ → List ℕ) where
  unfoldable pub empty : LogKind → LogAccumulator
  empty kind = record {
    kind = kind;
    next_index = 0;
    root = hash_parts sha256 (empty_domain kind) [] [];
  }

  unfoldable pub append : LogAccumulator → ℕ → Result LogError LogAccumulator
  append log value = do
    next_index ← next_of LogError.index_overflow log.next_index
    ok (record {
      kind = log.kind;
      next_index = next_index;
      root =
          hash_parts sha256 (element_domain log.kind) log.root.bytes
            (le_bytes 8 log.next_index ++ (value ∷ []));
    })

  -- The `try_fold` of `commit`, from an accumulator on.
  unfoldable pub append_all : LogAccumulator → List ℕ → Result LogError LogAccumulator
  append_all log [] = ok log
  append_all log (value ∷ values) = do next ← append log value; append_all next values

  unfoldable pub commit : LogKind → List ℕ → Result LogError LogAccumulator
  commit kind values = append_all (empty kind) values

  unfoldable pub empty_bus_transcript : TranscriptAccumulator
  empty_bus_transcript = record {
    next_index = 0;
    root = hash_parts sha256 HashDomain.bus_transcript_empty [] [];
  }

  unfoldable pub append_event :
      TranscriptAccumulator → BusTranscriptEvent → Result BusTranscriptError TranscriptAccumulator
  append_event t event =
      if leb 19 event.kind || leb (2 ^ 20) event.physical_address
      then err BusTranscriptError.non_canonical_event
      else do
        next_index ← next_of BusTranscriptError.index_overflow t.next_index
        ok (record {
          next_index = next_index;
          root =
              hash_parts sha256 HashDomain.bus_transcript_element t.root.bytes
                (canonical_bytes event t.next_index);
        })

  unfoldable pub empty_isa_transcript : TranscriptAccumulator
  empty_isa_transcript = record {
    next_index = 0;
    root = hash_parts sha256 HashDomain.isa_transcript_empty [] [];
  }

  unfoldable pub append_row :
      TranscriptAccumulator → ℕ → Result IsaTranscriptError TranscriptAccumulator
  append_row t packed_row =
      if leb packed_row_limit packed_row then err IsaTranscriptError.non_canonical_row else do
        next_index ← next_of IsaTranscriptError.index_overflow t.next_index
        ok (record {
          next_index = next_index;
          root =
              hash_parts sha256 HashDomain.isa_transcript_element t.root.bytes
                (le_bytes 8 t.next_index ++ le_bytes 16 packed_row);
        })
