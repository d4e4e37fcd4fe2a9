-- ===== src/SignalAudit/Canonical.antt =====
-- The updates that the protocol has, and how long their encodings are.
use kt_witness.Common.{
  ℕ, suc, ◌+◌, ◌*◌, ◌^◌, ◌≤◌, ◌<◌, ◌≡◌, ◌≢◌, refl, ap, List, [], ◌∷◌, ◌++◌, map, All, length,
  length-append, ◌==◌, arith, Bool-cases, inl, inr, ◌⊎◌,
}
use kt_witness.PbWire.{Field, append_varint, append_tag}
use kt_witness.PbWire.Varint.{length-append_varint}
use kt_witness.PbWire.RoundTrip.{written, body, IsField, bytes_field, varint_field}
use kt_witness.Signal.Node.{Value}
use kt_witness.SignalAudit.Update.{Update, ok, validate, zeros, different_key, same_key}
use kt_witness.SignalAudit.Encode.{encode_body}
use kt_witness.SignalAudit.Wire.{bytes_at, optional, parts_of, body_fields, encode_body-written}

-- An update as the protocol has it: valid, each array of its size, and nothing set that its kind of
-- proof does not carry.
pub record IsCanonical (u : Update) : Type 0 where
  pub valid : validate u ≡ ok tt
  pub index_length : length u.index ≡ 32
  pub seed_length : length u.seed ≡ 16
  pub commitment_length : length u.commitment ≡ 32
  pub copath_lengths : All (λ c. length c ≡ 32) u.copath
  pub old_seed_length : length u.old_seed ≡ 16
  pub old_seed_unset : u.proof ≢ different_key → u.old_seed ≡ zeros 16
  pub counter_fits : u.counter < 2 ^ 32
  pub position_fits : u.position < 2 ^ 64
  pub counter_unset : u.proof ≢ same_key → u.counter ≡ 0
  pub position_unset : u.proof ≢ same_key → u.position ≡ 0

length-body : (f : Field) → length (body f) ≤ 10 + length f.bytes
length-body f = ground (
  arith,
  length-append_varint f.varint,
  length-append_varint (length f.bytes),
  length-append (append_varint [] (length f.bytes)) f.bytes,
)

pub length-written_one :
    (f : Field) (rest : List ℕ)
    → length (append_tag [] f.num f.wire ++ (body f ++ rest)) ≤ 20 + length f.bytes + length rest
unfolding append_tag
length-written_one f rest = omega (
  arith,
  length-append (append_tag [] f.num f.wire) (body f ++ rest),
  length-append (body f) rest,
  length-append_varint (f.num * 8 + f.wire),
  length-body f,
)

-- A message of short fields is short.
length-written :
    (fs : List Field) → All (λ f. length f.bytes ≤ 32) fs → length (written fs) ≤ 52 * length fs
length-written [] all = omega arith
length-written (f ∷ fs) (p, all) =
    omega (arith, length-written_one f (written fs), length-written fs all)

All-append : (P : Field → Type 0) (fs gs : List Field) → All P fs → All P gs → All P (fs ++ gs)
All-append P [] gs p q = q
All-append P (f ∷ fs) gs (p, ps) q = (p, All-append P fs gs ps q)

All-imp : (P Q : Field → Type 0) (fs : List Field) → ((f : Field) → P f → Q f) → All P fs → All Q fs
All-imp P Q [] h all = tt
All-imp P Q (f ∷ fs) h (p, ps) = (h f p, All-imp P Q fs h ps)

-- A field that Fields reads back, and that is short.
abbrev Fits : Field → Type 0
Fits f = IsField f × (length f.bytes ≤ 32)

copath-Fits :
    (copath : List Value) → All (λ c. length c ≡ 32) copath → All Fits (map (bytes_at 1) copath)
copath-Fits [] all = tt
copath-Fits (c ∷ copath) (p, all) = (
  (bytes_field 1 c (omega arith) (omega arith) (omega arith), omega arith),
  copath-Fits copath all,
)

optional-Fits : (num v : ℕ) → 0 < num → num < 8 → v < 2 ^ 64 → All Fits (optional num v)
optional-Fits num v p q r = elim (Bool-cases (v == 0)) [
  | inl e ↦ rw e tt
  | inr e ↦ rw e ((varint_field num v p (omega arith) r, omega arith), tt)
]

pub length-map-bytes_at : (copath : List Value) → length (map (bytes_at 1) copath) ≡ length copath
length-map-bytes_at [] = refl
length-map-bytes_at (c ∷ copath) = ap suc (length-map-bytes_at copath)

module _ (u : Update) (canonical : IsCanonical u) where
  pub copath_short : length u.copath ≤ 256
  unfolding validate
  copath_short = ground (arith, canonical.valid)

  pub kinds : ◌⊎◌ (u.proof ≡ 1) (◌⊎◌ (u.proof ≡ 3) (u.proof ≡ 4))
  unfolding validate
  kinds = ground (arith, canonical.valid)

  parts-Fits : All Fits (parts_of u)
  parts-Fits = elim (Bool-cases (u.proof == different_key)) [
    | inl e ↦
        let size : length u.old_seed ≤ 32 = omega (arith, canonical.old_seed_length) in
        simp e ((bytes_field 2 u.old_seed (omega arith) (omega arith) (omega arith), size), tt)
    | inr e ↦ elim (Bool-cases (u.proof == same_key)) [
      | inl e' ↦
          simp (e, e')
            (All-append Fits (optional 2 u.counter) _
              (optional-Fits 2 u.counter (omega arith) (omega arith)
                (omega (arith, canonical.counter_fits)))
              (optional-Fits 3 u.position (omega arith) (omega arith) canonical.position_fits))
      | inr e' ↦ simp (e, e') tt
    ]
  ]

  length-parts : length (parts_of u) ≤ 2
  length-parts = ground (arith, length-append (optional 2 u.counter) (optional 3 u.position))

  body-Fits : All Fits (body_fields u)
  body-Fits =
      All-append Fits (map (bytes_at 1) u.copath) (parts_of u)
        (copath-Fits u.copath canonical.copath_lengths) parts-Fits

  pub body-IsField : All IsField (body_fields u)
  body-IsField = All-imp Fits IsField (body_fields u) (λ f p. p.0) body-Fits

  pub length-encode_body : length (encode_body u) ≤ 13416
  length-encode_body = omega (
    arith,
    ap length (encode_body-written u),
    length-written (body_fields u)
        (All-imp Fits (λ f. length f.bytes ≤ 32) _ (λ f p. p.1) body-Fits),
    length-append (map (bytes_at 1) u.copath) (parts_of u),
    length-map-bytes_at u.copath,
    copath_short,
    length-parts,
  )
