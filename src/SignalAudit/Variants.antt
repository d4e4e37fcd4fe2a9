-- ===== src/SignalAudit/Variants.antt =====
-- The numbers that decodeProof takes for the variants of a proof.
use kt_witness.Common.{ℕ, ◌%◌, ◌^◌, ◌<◌, ◌≡◌, refl, List, [], ◌∷◌, length, arith}
use kt_witness.PbWire.{Field}
use kt_witness.PbWire.RoundTrip.{written, bytes_field}
use kt_witness.SignalAudit.Update.{Update}
use kt_witness.SignalAudit.Decode.{take_variant, decode_proof}
use kt_witness.SignalAudit.Wire.{bytes_at}
use kt_witness.SignalAudit.Parts.{read_fields-written}

-- Only the low eight bits of a field's number are looked at.
take_variant-low_bits :
    (found : ℕ × List ℕ) (num k : ℕ) (bytes : List ℕ) (fs : List Field)
    → num % 256 ≡ k
    → k < 256
    → take_variant found (bytes_at num bytes ∷ fs) ≡ take_variant found (bytes_at k bytes ∷ fs)
unfolding take_variant
take_variant-low_bits (kind, body) num k bytes fs h small =
    let same : num % 256 ≡ k % 256 = omega (arith, h) in rw same refl

-- A proof with one field is read as the proof whose field has that number modulo 256, so an unknown
-- field is read as a variant that its number is short of by a multiple of 256; the body is shorter
-- than 2 ^ 64 and the number has 29 bits.
pub decode_proof-low_bits :
    (num k : ℕ) (bytes : List ℕ) (u : Update)
    → num % 256 ≡ k
    → 0 < k
    → k < 256
    → num < 2 ^ 29
    → length bytes < 2 ^ 64
    → decode_proof (written (bytes_at num bytes ∷ [])) u
      ≡ decode_proof (written (bytes_at k bytes ∷ [])) u
unfolding decode_proof
decode_proof-low_bits num k bytes u h positive small fits short =
    let wide =
      read_fields-written (bytes_at num bytes ∷ [])
        (bytes_field num bytes (ground arith) (omega arith) short, tt) in
    let narrow =
      read_fields-written (bytes_at k bytes ∷ [])
        (bytes_field k bytes positive (omega arith) short, tt) in
    rw (wide, narrow, take_variant-low_bits (0, []) num k bytes [] h small) refl
