-- ===== src/SignalAudit/Parts.antt =====
-- What the loops of decodeProof make of the fields that EncodeUpdate writes.
use mathlib.Core.List.{append_assoc, append-nil}
use kt_witness.Common.{
  ℕ, ◌+◌, ◌^◌, ◌≤◌, ◌<◌, ◌≡◌, refl, ap, sym, ◌∙◌, true, false, List, [], ◌∷◌, ◌++◌, map, All,
  length, length-append, ltb, ◌==◌, ==_iff, if◌then◌else◌, arith, Bool-cases, inl, inr, ◌⊎◌, ◌-◌,
  Option, none, some,
}
use kt_witness.PbWire.{Field}
use kt_witness.PbWire.RoundTrip.{written, IsField, fields-of_written}
use kt_witness.Signal.Node.{Value}
use kt_witness.SignalAudit.Update.{ok, different_key, same_key, max_copath, hash_size}
use kt_witness.SignalAudit.Decode.{
  number_of, read_fields, take_variant, Body, no_body, take_part, take_parts,
}
use kt_witness.SignalAudit.Wire.{bytes_at, optional}

-- Read back by the loop of decodeProof: the copath, and then each part.
pub take_parts-copath :
    (kind : ℕ) (b : Body) (copath : List Value) (rest : List Field)
    → All (λ c. length c ≡ 32) copath
    → length b.copath + length copath ≤ 256
    → take_parts kind b (map (bytes_at 1) copath ++ rest)
      ≡ take_parts kind (record b { copath = b.copath ++ copath }) rest
unfolding take_parts take_part
take_parts-copath kind b [] rest all h =
    ap (λ l. take_parts kind (record b { copath = l }) rest) (sym (append-nil b.copath))
take_parts-copath kind b (c ∷ copath) rest (p, all) h =
    let size : (length c == hash_size) ≡ true = (==_iff (length c) hash_size).1 p in
    let room : (length b.copath == max_copath) ≡ false = ground arith in
    rw (size, room)
      (take_parts-copath kind (record b { copath = b.copath ++ c ∷ [] }) copath rest all
          (omega (arith, length-append b.copath (c ∷ [])))
        ∙ ap (λ l. take_parts kind (record b { copath = l }) rest)
            (append_assoc b.copath (c ∷ []) copath))

pub take_parts-old_seed :
    (copath : List Value) (seed : List ℕ)
    → length seed ≡ 16
    → take_parts different_key (record no_body { copath = copath }) (bytes_at 2 seed ∷ [])
      ≡ ok (record no_body { copath = copath; old_seed = some seed })
unfolding take_parts take_part
take_parts-old_seed copath seed h =
    let size : (length seed == 16) ≡ true = (==_iff (length seed) 16).1 h in rw size refl

-- What an optional number leaves in its slot.
abbrev pub slot : ℕ → Option ℕ
slot v = if v == 0 then none else some v

pub take_parts-numbers :
    (copath : List Value) (counter position : ℕ)
    → counter < 2 ^ 32
    → take_parts same_key
        (record no_body { copath = copath })
        (optional 2 counter ++ optional 3 position)
      ≡ ok (record no_body { copath = copath; counter = slot counter; position = slot position })
unfolding take_parts take_part
take_parts-numbers copath counter position h =
    let narrow : ltb (2 ^ 32 - 1) counter ≡ false = ground arith in
    elim (Bool-cases (counter == 0)) [
      | inl c ↦ elim (Bool-cases (position == 0)) [
        | inl p ↦ rw (c, p) refl
        | inr p ↦ rw (c, p) refl
      ]
      | inr c ↦ elim (Bool-cases (position == 0)) [
        | inl p ↦ rw (c, p, narrow) refl
        | inr p ↦ rw (c, p, narrow) refl
      ]
    ]

pub number_of-slot : (v : ℕ) → number_of (slot v) ≡ v
number_of-slot v = ground arith

pub read_fields-written : (fs : List Field) → All IsField fs → read_fields (written fs) ≡ ok fs
read_fields-written fs all = rw (read_fields, fields-of_written fs all) refl

pub nil-of_length : (l : List Value) → length l ≡ 0 → [] ≡ l
nil-of_length [] h = refl
nil-of_length (x ∷ l) h = absurd (omega arith)

pub take_variant-one :
    (kind : ℕ) (bytes : List ℕ)
    → ◌⊎◌ (kind ≡ 1) (◌⊎◌ (kind ≡ 3) (kind ≡ 4))
    → take_variant (0, []) (bytes_at kind bytes ∷ []) ≡ ok (kind, bytes)
unfolding take_variant
take_variant-one kind bytes (inl e) = rw e refl
take_variant-one kind bytes (inr (inl e)) = rw e refl
take_variant-one kind bytes (inr (inr e)) = rw e refl
