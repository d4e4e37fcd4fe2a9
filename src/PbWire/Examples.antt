-- ===== src/PbWire/Examples.antt =====
-- Runs of the codec of internal/pbwire/pbwire.go on concrete bytes.
use kt_witness.Common.{◌≡◌, refl, [], ◌∷◌, ◌++◌, arith}
use kt_witness.PbWire.{ok, append_varint, strict_uvarint, Field, fields, parse}
use kt_witness.PbWire.Varint.{strict_uvarint-append_varint}
use kt_witness.PbWire.Lenient.{entries, parse-of_fields}
use kt_witness.PbWire.RoundTrip.{written, varint_field, bytes_field, fields-of_written}

strict_uvarint-append_varint_example :
    strict_uvarint (append_varint [] 300 ++ 9 ∷ []) ≡ ok (300, 9 ∷ [])
strict_uvarint-append_varint_example = strict_uvarint-append_varint 300 (9 ∷ []) (omega arith)

abbrev size_field : Field
size_field = record { num = 1; wire = 0; varint = 300; bytes = [] }

abbrev root_field : Field
root_field = record { num = 2; wire = 2; varint = 0; bytes = 7 ∷ 8 ∷ [] }

fields-of_written_example :
    fields (written (size_field ∷ root_field ∷ [])) ≡ ok (size_field ∷ root_field ∷ [])
fields-of_written_example = fields-of_written (size_field ∷ root_field ∷ []) (
  varint_field 1 300 (omega arith) (omega arith) (omega arith),
  (bytes_field 2 (7 ∷ 8 ∷ []) (omega arith) (omega arith) (omega arith), tt),
)

fields_run : fields (8 ∷ 172 ∷ 2 ∷ 18 ∷ 2 ∷ 7 ∷ 8 ∷ []) ≡ ok (size_field ∷ root_field ∷ [])
unfolding fields strict_uvarint
fields_run = refl

parse-of_fields_example :
    parse (8 ∷ 172 ∷ 2 ∷ 18 ∷ 2 ∷ 7 ∷ 8 ∷ []) ≡ entries (size_field ∷ root_field ∷ [])
parse-of_fields_example =
    parse-of_fields (8 ∷ 172 ∷ 2 ∷ 18 ∷ 2 ∷ 7 ∷ 8 ∷ []) (size_field ∷ root_field ∷ []) fields_run
