-- ===== src/SignalAudit/RoundTrip.antt =====
-- DecodeUpdate reads back every update that EncodeUpdate writes.
use kt_witness.Common.{
  ℕ, ◌^◌, ◌<◌, ◌≡◌, refl, ap, sym, ◌∙◌, true, false, List, [], ◌∷◌, ◌++◌, All, length, ◌==◌, ==_iff,
  if◌then◌else◌, arith, Bool-cases, inl, inr, none, some,
}
use kt_witness.PbWire.RoundTrip.{written, IsField, bytes_field, varint_field}
use kt_witness.Signal.Node.{Value}
use kt_witness.SignalAudit.Update.{
  Update, ok, validate, zeros, different_key, same_key, new_tree, no_update,
}
use kt_witness.SignalAudit.Decode.{
  bool_of, read_fields, Slots, no_slots, take_slot, take_slots, no_body, take_parts, decode_body,
  decode_proof, from_slots, decode_update,
}
use kt_witness.SignalAudit.Encode.{encode_body, encode_update}
use kt_witness.SignalAudit.Wire.{
  bytes_at, optional, parts_of, body_fields, update_fields, encode_body-written,
  encode_update-written,
}
use kt_witness.SignalAudit.Canonical.{
  IsCanonical, length-written_one, copath_short, kinds, body-IsField, length-encode_body,
}
use kt_witness.SignalAudit.Parts.{
  take_parts-copath, take_parts-old_seed, take_parts-numbers, slot, number_of-slot,
  read_fields-written, nil-of_length, take_variant-one,
}

module _ (u : Update) (canonical : IsCanonical u) where
  -- What DecodeUpdate knows of the update before its proof.
  abbrev before_proof : Update
  before_proof = record no_update {
    real = u.real;
    index = u.index;
    seed = u.seed;
    commitment = u.commitment;
  }

  rebuilt :
      (kind : ℕ) (copath : List Value) (old_seed : List ℕ) (counter position : ℕ)
      → kind ≡ u.proof
      → copath ≡ u.copath
      → old_seed ≡ u.old_seed
      → counter ≡ u.counter
      → position ≡ u.position
      → record u {
        proof = kind;
        copath = copath;
        old_seed = old_seed;
        counter = counter;
        position = position;
      }
        ≡ u
  rebuilt kind copath old_seed counter position a b c d e =
      λ i. record u { proof = a i; copath = b i; old_seed = c i; counter = d i; position = e i }

  parts-different :
      u.proof ≡ 3
      → take_parts u.proof no_body (body_fields u)
        ≡ ok (record no_body { copath = u.copath; old_seed = some u.old_seed })
  parts-different e =
      let is_different : (u.proof == different_key) ≡ true = ground arith in
      let parts : parts_of u ≡ bytes_at 2 u.old_seed ∷ [] = simp is_different refl in
      take_parts-copath u.proof no_body u.copath (parts_of u) canonical.copath_lengths
        (omega (arith, (copath_short u canonical)))
      ∙ (λ i. take_parts (e i) (record no_body { copath = u.copath }) (parts i))
      ∙ take_parts-old_seed u.copath u.old_seed canonical.old_seed_length

  parts-same :
      u.proof ≡ 4
      → take_parts u.proof no_body (body_fields u)
        ≡ ok (record no_body {
          copath = u.copath;
          counter = slot u.counter;
          position = slot u.position;
        })
  parts-same e =
      let is_same : (u.proof == same_key) ≡ true = ground arith in
      let is_not : (u.proof == different_key) ≡ false = ground arith in
      let parts : parts_of u ≡ optional 2 u.counter ++ optional 3 u.position =
        simp (is_not, is_same) refl in
      take_parts-copath u.proof no_body u.copath (parts_of u) canonical.copath_lengths
        (omega (arith, (copath_short u canonical)))
      ∙ (λ i. take_parts (e i) (record no_body { copath = u.copath }) (parts i))
      ∙ take_parts-numbers u.copath u.counter u.position canonical.counter_fits

  no_copath : u.proof ≡ 1 → [] ≡ u.copath
  unfolding validate
  no_copath e = nil-of_length u.copath (ground (arith, canonical.valid))

  decode_body-encode_body : decode_body before_proof u.proof (encode_body u) ≡ ok u
  unfolding decode_body
  decode_body-encode_body =
      let read : read_fields (encode_body u) ≡ ok (body_fields u) =
        ap read_fields (encode_body-written u)
        ∙ read_fields-written (body_fields u) (body-IsField u canonical) in
      rw (decode_body, read)
        (elim (kinds u canonical) [
          | inl e ↦
              let is_new : (u.proof == new_tree) ≡ true = ground arith in
              simp is_new (
                ap ok (
                  rebuilt u.proof [] (zeros 16) 0 0 refl (no_copath e)
                    (sym (canonical.old_seed_unset (λ h. omega arith)))
                    (sym (canonical.counter_unset (λ h. omega arith)))
                    (sym (canonical.position_unset (λ h. omega arith)))))
          | inr (inl e) ↦
              let is_old : (u.proof == new_tree) ≡ false = ground arith in
              let is_different : (u.proof == different_key) ≡ true = ground arith in
              simp is_old (
                rw (parts-different e) (
                  simp is_different (
                    ap ok (
                      rebuilt u.proof u.copath u.old_seed 0 0 refl refl refl
                        (sym (canonical.counter_unset (λ h. omega arith)))
                        (sym (canonical.position_unset (λ h. omega arith)))))))
          | inr (inr e) ↦
              let is_old : (u.proof == new_tree) ≡ false = ground arith in
              let is_not : (u.proof == different_key) ≡ false = ground arith in
              simp is_old (
                rw (parts-same e) (
                  simp is_not (
                    ap ok (
                      rebuilt u.proof u.copath (zeros 16) _ _ refl refl
                        (sym (canonical.old_seed_unset (λ h. omega arith)))
                        (number_of-slot u.counter) (number_of-slot u.position)))))
        ])

  proof-IsField : All IsField (bytes_at u.proof (encode_body u) ∷ [])
  proof-IsField = (
    bytes_field u.proof (encode_body u) (ground (arith, (kinds u canonical)))
        (ground (arith, (kinds u canonical))) (omega (arith, (length-encode_body u canonical))),
    tt,
  )

  decode_proof-written :
      decode_proof (written (bytes_at u.proof (encode_body u) ∷ [])) before_proof ≡ ok u
  unfolding decode_proof
  decode_proof-written =
      let known : (u.proof == 0) ≡ false = ground (arith, (kinds u canonical)) in
      rw (read_fields-written (bytes_at u.proof (encode_body u) ∷ []) proof-IsField) (
        rw (take_variant-one u.proof (encode_body u) (kinds u canonical))
          (simp known decode_body-encode_body))

  rest-IsField : All IsField (
      bytes_at 2 u.index
      ∷ bytes_at 3 u.seed
      ∷ bytes_at 4 u.commitment
      ∷ bytes_at 5 (written (bytes_at u.proof (encode_body u) ∷ []))
      ∷ [])
  rest-IsField =
      let short : length (written (bytes_at u.proof (encode_body u) ∷ [])) < 2 ^ 64 = omega (
        arith,
        length-written_one (bytes_at u.proof (encode_body u)) [],
        (length-encode_body u canonical),
      ) in
      (
        bytes_field 2 u.index (omega arith) (omega arith) (omega (arith, canonical.index_length)),
        (
          bytes_field 3 u.seed (omega arith) (omega arith) (omega (arith, canonical.seed_length)),
          (
            bytes_field 4 u.commitment (omega arith) (omega arith)
                (omega (arith, canonical.commitment_length)),
            (bytes_field 5 _ (omega arith) (omega arith) short, tt),
          ),
        ),
      )

  whole-IsField : All IsField (update_fields u (encode_body u))
  whole-IsField = elim (Bool-cases u.real) [
    | inl e ↦ simp e (varint_field 1 1 (omega arith) (omega arith) (omega arith), rest-IsField)
    | inr e ↦ simp e rest-IsField
  ]

  abbrev read_slots : Slots
  read_slots = record {
    real = if u.real then some true else none;
    index = some u.index;
    seed = some u.seed;
    commitment = some u.commitment;
    proof = some (written (bytes_at u.proof (encode_body u) ∷ []));
  }

  take_slots-update_fields : take_slots no_slots (update_fields u (encode_body u)) ≡ ok read_slots
  unfolding take_slots take_slot
  take_slots-update_fields = elim (Bool-cases u.real) [ inl e ↦ simp e refl | inr e ↦ simp e refl ]

  from_slots-read_slots : from_slots read_slots ≡ ok u
  unfolding from_slots
  from_slots-read_slots =
      let i : (length u.index == 32) ≡ true = (==_iff _ _).1 canonical.index_length in
      let s : (length u.seed == 16) ≡ true = (==_iff _ _).1 canonical.seed_length in
      let c : (length u.commitment == 32) ≡ true = (==_iff _ _).1 canonical.commitment_length in
      let real : bool_of (if u.real then some true else none) ≡ u.real = ground arith in
      simp (i, s, c, real) (rw decode_proof-written (rw canonical.valid refl))

  -- What EncodeUpdate writes of a canonical update, DecodeUpdate reads back.
  pub decode_update-encode_update : decode_update (encode_update u) ≡ ok u
  unfolding decode_update
  decode_update-encode_update =
      let read =
        ap read_fields (encode_update-written u)
        ∙ read_fields-written (update_fields u (encode_body u)) whole-IsField in
      rw read (rw take_slots-update_fields from_slots-read_slots)
