-- ===== src/Isa/Table.antt =====
-- The opcode tables of crates/zksm83-isa/src/decode.rs against the assembler and the packing.
use zksm.Prelude.{
  ℕ, ◌<◌, ◌≡◌, ◌⊎◌, ◌^◌, ◌+◌, ◌&&◌, arith, leb, ◌≤◌, Bool, true, false, ◌==◌, ◌||◌, ltb, refl,
  ==_iff, ap, sym, ◌∙◌, all_below, ltb→lt, all_below_sound, Result, ok, err,
}
use zksm.Isa.Types.{Operation, DecodedInstruction, OpcodeClassification}
use zksm.Isa.Decode.{decode_primary, decode_defined_primary, decode_cb}
use zksm.Isa.Encode.{encode}
use zksm.Isa.Alignment.Rows.{AlignmentPackingError, from_decoded, packed}

-- Whether a classification names the byte again.
abbrev names_byte : ℕ → OpcodeClassification → Bool
unfolding encode
names_byte b (OpcodeClassification.defined i) = encode i.operation == b
names_byte b (OpcodeClassification.undefined x) = x == b

abbrev decodes_back : ℕ → Bool
unfolding decode_primary names_byte
decodes_back b = names_byte b (decode_primary b)

all_decode_back : all_below 256 decodes_back ≡ true
unfolding all_below decodes_back
all_decode_back = refl

-- The operation that a primary opcode byte decodes to is assembled to that byte by an assembler
-- written apart from the decoder.
pub decode_primary-encode :
    (b : ℕ) (i : DecodedInstruction)
    → b < 256
    → decode_primary b ≡ OpcodeClassification.defined i
    → encode i.operation ≡ b
unfolding names_byte decodes_back
decode_primary-encode b i h e =
    let test = all_below_sound 256 decodes_back b all_decode_back h in
    let named = sym (ap (names_byte b) e) ∙ test in (==_iff (encode i.operation) b).0 named

abbrev cb_decodes_back : ℕ → Bool
unfolding decode_cb encode
cb_decodes_back b = encode (decode_cb b).operation == b

all_cb_decode_back : all_below 256 cb_decodes_back ≡ true
unfolding all_below cb_decodes_back
all_cb_decode_back = refl

-- The operation that a CB second byte decodes to is assembled to that byte.
pub decode_cb-encode : (b : ℕ) → b < 256 → encode (decode_cb b).operation ≡ b
unfolding cb_decodes_back
decode_cb-encode b h =
    let test = all_below_sound 256 cb_decodes_back b all_cb_decode_back h in ground arith

abbrev packs : Result AlignmentPackingError ℕ → Bool
packs (ok w) = ltb w (2 ^ 106)
packs (err _) = false

abbrev primary_packs : ℕ → Bool
unfolding decode_defined_primary from_decoded packed
primary_packs b = packs (packed (from_decoded (decode_defined_primary b)))

all_primary_pack : all_below 256 primary_packs ≡ true
unfolding all_below primary_packs zksm.Isa.Alignment.Rows.append_all zksm.Isa.Alignment.Rows.fields
    zksm.Isa.Alignment.Rows.append_packed
all_primary_pack = refl

abbrev cb_packs : ℕ → Bool
unfolding decode_cb from_decoded packed
cb_packs b = packs (packed (from_decoded (decode_cb b)))

all_cb_pack : all_below 256 cb_packs ≡ true
unfolding all_below cb_packs zksm.Isa.Alignment.Rows.append_all zksm.Isa.Alignment.Rows.fields
    zksm.Isa.Alignment.Rows.append_packed
all_cb_pack = refl

packs-ok :
    (r : Result AlignmentPackingError ℕ) → packs r ≡ true → (w : ℕ) × (r ≡ ok w) × (w < 2 ^ 106)
packs-ok (ok w) h = (w, refl, ltb→lt w (2 ^ 106) h)
packs-ok (err e) h = absurd (ground arith)

-- For every byte, the row of its primary decoding and the row of its CB decoding pack without
-- error into 106 bits.
pub from_decoded-packed :
    (b : ℕ)
    → b < 256
    → ((w : ℕ) × (packed (from_decoded (decode_defined_primary b)) ≡ ok w) × (w < 2 ^ 106))
      × ((w : ℕ) × (packed (from_decoded (decode_cb b)) ≡ ok w) × (w < 2 ^ 106))
unfolding primary_packs cb_packs
from_decoded-packed b h = (
  packs-ok (packed (from_decoded (decode_defined_primary b)))
      (all_below_sound 256 primary_packs b all_primary_pack h),
  packs-ok (packed (from_decoded (decode_cb b))) (all_below_sound 256 cb_packs b all_cb_pack h),
)

abbrev pub is_stop : Operation → Bool
is_stop Operation.stop = true
is_stop _ = false

abbrev covered : OpcodeClassification → Bool
covered (OpcodeClassification.defined i) =
    (i.bus.opcode_fetches + i.bus.immediate_reads == i.byte_len)
    && (is_stop i.operation
        || leb (i.byte_len + i.bus.data_reads + i.bus.data_writes) i.timing.base_m_cycles)
covered (OpcodeClassification.undefined _) = true

covered-timing :
    (i : DecodedInstruction)
    → covered (OpcodeClassification.defined i) ≡ true
    → (i.bus.opcode_fetches + i.bus.immediate_reads ≡ i.byte_len)
      × ((is_stop i.operation ≡ true)
          ⊎ (i.byte_len + i.bus.data_reads + i.bus.data_writes ≤ i.timing.base_m_cycles))
covered-timing i h = ground arith

all_primary_covered : all_below 256 (λ b. covered (decode_primary b)) ≡ true
unfolding all_below decode_primary
all_primary_covered = refl

-- For a defined primary instruction, STOP included, the fetches and immediate reads are as many as
-- its bytes; it is STOP, or its base M-cycles are at least its bytes and data accesses together.
pub decode_primary-timing :
    (b : ℕ) (i : DecodedInstruction)
    → b < 256
    → decode_primary b ≡ OpcodeClassification.defined i
    → (i.bus.opcode_fetches + i.bus.immediate_reads ≡ i.byte_len)
      × ((is_stop i.operation ≡ true)
          ⊎ (i.byte_len + i.bus.data_reads + i.bus.data_writes ≤ i.timing.base_m_cycles))
decode_primary-timing b i h e =
    let test =
      sym (ap covered e)
      ∙ all_below_sound 256 (λ x. covered (decode_primary x)) b all_primary_covered h in
    covered-timing i test
