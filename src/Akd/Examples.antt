-- ===== src/Akd/Examples.antt =====
-- Tests of the verification of append-only proofs, and its theorems at concrete proofs.
use kt_witness.Common.{
  ℕ, zero, suc, ◌+◌, ◌*◌, ◌%◌, ◌^◌, ◌<◌, ◌≡◌, ◌≢◌, ◌↔◌, refl, arith, Bool, true, ◌&&◌, List, [],
  ◌∷◌, ◌++◌, All, some, ltb, drop, if◌then◌else◌,
}
use kt_witness.Signal.Node.{Value}
use kt_witness.PbWire.{big_endian}
use kt_witness.Akd.Label.{Element, common_prefix_len, bit_at, prefix_of}
use kt_witness.Akd.Bits.{IsCommon, common_prefix_len-IsCommon}
use kt_witness.Akd.Tree.{
  sort_elements, merged, committed, roots, root_hash, subtree, insert_element, merge, merge_one,
  before_bit, from_bit, verify_append_only, label_value, parent_hash,
}
use kt_witness.Akd.Tree as T
use kt_witness.Akd.Decode as D
use kt_witness.Akd.Prefixes.{IsPrefix, NoPrefix}
use kt_witness.Akd.Decode.{
  decode, next_piece, decode_element, walk_loop, read_label_loop, read_uvarint, read_uvarint_loop,
  copied, piece_after,
}
use kt_witness.Akd.AppendOnly.{Extends}
use kt_witness.Akd.Verdict.{roots_iff_free, subtree_hidden_prefix}
use kt_witness.Akd.Verifier.{
  looping, passed, not_verified, verify_cached, IsProof, verify_cached-Extends, accused_differs,
  verify_cached_ends,
}
use kt_witness.Akd.Ranges as R
use kt_witness.Akd.Ranges.{
  next_record, scan_leading, scan_loop, payload_offset, field_ranges, each_record, frame_after,
  extend, scanned,
}
use kt_witness.Akd.Framing.{Agrees, next_record-Agrees}
use kt_witness.Akd.Scanning.{Resumes, scan_leading-Resumes}
use kt_witness.Akd.Payload.{payload_of}
use kt_witness.Akd.Located.{Locates, payload_offset-Locates}

abbrev sum : List ℕ → ℕ
sum [] = 0
sum (x ∷ l) = x + sum l

-- A hash of the right size.
abbrev checksum : List ℕ → Value
checksum l = sum l % 256 ∷ big_endian 31 0

abbrev all_small : List ℕ → Bool
all_small [] = true
all_small (b ∷ l) = ltb b 256 && all_small l

-- A label of one byte and a value of 32.
abbrev element_bytes : ℕ → ℕ → List ℕ
element_bytes label value = 10 ∷ 5 ∷ 10 ∷ 1 ∷ label ∷ 16 ∷ 8 ∷ 18 ∷ 32 ∷ value ∷ big_endian 31 0

abbrev proof_bytes : List ℕ
proof_bytes = (10 ∷ 41 ∷ element_bytes 128 2) ++ (18 ∷ 41 ∷ element_bytes 64 1)

abbrev text_zeros : ℕ → List ℕ
text_zeros zero = []
text_zeros (suc n) = 48 ∷ text_zeros n

abbrev decoded_elements : List Element × List Element
decoded_elements = (
  record { label = 128 * 256 ^ 31; len = 8; value = 2 ∷ big_endian 31 0 } ∷ [],
  record { label = 64 * 256 ^ 31; len = 8; value = 1 ∷ big_endian 31 0 } ∷ [],
)

decode_test : decode proof_bytes ≡ D.ok decoded_elements
unfolding decode decode_element walk_loop read_label_loop read_uvarint copied
decode_test = refl

abbrev prev_text : List ℕ
prev_text = 56 ∷ 57 ∷ text_zeros 62

abbrev curr_text : List ℕ
curr_text = 100 ∷ 97 ∷ text_zeros 62

abbrev wrong_text : List ℕ
wrong_text = 100 ∷ 98 ∷ text_zeros 62

small_bytes : (l : List ℕ) → all_small l ≡ true → All (λ b. b < 256) l
small_bytes [] h = tt
small_bytes (b ∷ l) h = (ground (arith, h), small_bytes l (ground (arith, h)))

proof_small : All (λ b. b < 256) proof_bytes
proof_small = small_bytes proof_bytes refl

proof_passes : verify_cached checksum (some proof_bytes) prev_text curr_text 7 ≡ passed
unfolding verify_cached decode decode_element walk_loop read_label_loop read_uvarint copied
    verify_append_only sort_elements before_bit bit_at from_bit merge
proof_passes = refl

proof_refused : verify_cached checksum (some proof_bytes) prev_text wrong_text 7 ≡ not_verified
unfolding verify_cached decode decode_element walk_loop read_label_loop read_uvarint copied
    verify_append_only sort_elements before_bit bit_at from_bit merge
proof_refused = refl

verify_cached-Extends_example :
    (inserted unchanged : List Element) × (prev curr : Value) × IsProof proof_bytes prev_text
      curr_text inserted unchanged prev curr
    × Extends checksum unchanged inserted prev curr 7
verify_cached-Extends_example =
    verify_cached-Extends checksum proof_bytes prev_text curr_text 7 proof_small proof_passes

accused_differs_example :
    (inserted unchanged : List Element) × (prev curr : Value) × IsProof proof_bytes prev_text
      wrong_text inserted unchanged prev curr
    × ((r : Value × Value) × (roots checksum unchanged inserted 7 ≡ T.ok r) × (r ≢ (prev, curr)))
accused_differs_example =
    accused_differs checksum proof_bytes prev_text wrong_text 7 proof_small proof_refused

verify_cached_ends_example :
    verify_cached checksum (some proof_bytes) prev_text wrong_text 7 ≢ looping
verify_cached_ends_example =
    verify_cached_ends checksum proof_bytes prev_text wrong_text 7 proof_small

abbrev one_unchanged : List Element
one_unchanged = decoded_elements.1

abbrev one_inserted : List Element
one_inserted = decoded_elements.0

roots_iff_free_example :
    (NoPrefix (sort_elements one_unchanged)
      × NoPrefix (merged checksum one_unchanged one_inserted 7))
    ↔ ((r : Value × Value) × (roots checksum one_unchanged one_inserted 7 ≡ T.ok r))
roots_iff_free_example =
    roots_iff_free checksum one_unchanged one_inserted 7 ((omega arith, omega arith), tt) (refl, tt)
      (omega arith, tt) ((omega arith, omega arith), tt) (refl, tt) (omega arith, tt)

-- Two labels that share twelve bits: a whole byte and four more.
abbrev long_label : Element
long_label = record { label = 43981 * 256 ^ 30; len = 16; value = big_endian 32 1 }

abbrev short_label : Element
short_label = record { label = 43970 * 256 ^ 30; len = 14; value = big_endian 32 2 }

common_test : common_prefix_len long_label short_label ≡ 12
unfolding common_prefix_len bit_at
common_test = refl

common_prefix_len-IsCommon_example :
    IsCommon long_label.label short_label.label
      (if ltb short_label.len long_label.len then short_label.len else long_label.len)
      (common_prefix_len long_label short_label)
common_prefix_len-IsCommon_example =
    common_prefix_len-IsCommon long_label short_label (omega arith) (omega arith) (omega arith)
      (omega arith)

-- The labels 00 and 0, the second with a bit after its only one.
abbrev first_label : Element
first_label = record { label = 0; len = 2; value = big_endian 32 1 }

abbrev hidden_label : Element
hidden_label = record { label = 2 ^ 254; len = 1; value = big_endian 32 2 }

first_bit : bit_at 0 1 ≡ 0
unfolding bit_at
first_bit = refl

hidden_bit : bit_at (2 ^ 254) 1 ≡ 1
unfolding bit_at
hidden_bit = refl

subtree_hidden_prefix_example :
    IsPrefix hidden_label first_label
    × (subtree checksum 1 (first_label ∷ hidden_label ∷ [])
        ≡ T.ok (
          parent_hash checksum
              (big_endian 32 1)
              (label_value checksum 0 2)
              (big_endian 32 2)
              (label_value checksum (2 ^ 254) 1),
          label_value checksum (prefix_of 0 1) 1,
        ))
subtree_hidden_prefix_example =
    subtree_hidden_prefix checksum 0 first_label hidden_label (omega arith, omega arith)
      (omega arith, omega arith) (omega arith) refl first_bit hidden_bit

next_record-Agrees_example :
    Agrees proof_bytes (next_record proof_bytes 43) (next_piece (drop 43 proof_bytes))
next_record-Agrees_example = next_record-Agrees proof_bytes 43

scan_test : scan_leading proof_bytes 1 0 ≡ scanned 43 true
unfolding scan_leading next_record read_uvarint
scan_test = refl

scan_leading-Resumes_example :
    Resumes
      ((10 ∷ 2 ∷ 7 ∷ 7 ∷ 10 ∷ []) ++ (1 ∷ 9 ∷ 18 ∷ 0 ∷ []))
      1
      0
      (scan_leading (10 ∷ 2 ∷ 7 ∷ 7 ∷ 10 ∷ []) 1 0)
scan_leading-Resumes_example =
    scan_leading-Resumes (10 ∷ 2 ∷ 7 ∷ 7 ∷ 10 ∷ []) (1 ∷ 9 ∷ 18 ∷ 0 ∷ []) 1 0

payload_test :
    payload_offset proof_bytes 1 (some 1) ≡ R.ok (record { offset = 11; total = 33; found = true })
unfolding payload_offset next_record read_uvarint
payload_test = refl

payload_of_test : payload_of proof_bytes 1 ≡ R.ok (128 ∷ 2 ∷ big_endian 31 0)
unfolding payload_of next_record read_uvarint
payload_of_test = refl

payload_offset-Locates_example :
    Locates proof_bytes 1 (payload_offset proof_bytes 1 (some 1)) (payload_of proof_bytes 1)
payload_offset-Locates_example = payload_offset-Locates proof_bytes 1 1

ranges_test : field_ranges proof_bytes 2 ≡ R.ok (record { start = 43; end = 86 } ∷ [])
unfolding field_ranges next_record read_uvarint
ranges_test = refl
