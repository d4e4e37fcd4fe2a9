-- ===== src/SignalAudit/Wire.antt =====
-- EncodeUpdate writes a list of fields, which pbwire.Fields reads back.
use mathlib.Core.List.{append_assoc, append-nil}
use kt_witness.Common.{
  ℕ, ◌+◌, ◌*◌, ◌≡◌, refl, ap, sym, ◌∙◌, List, [], ◌∷◌, ◌++◌, map, length, ◌==◌, if◌then◌else◌,
  Bool-cases, inl, inr,
}
use kt_witness.PbWire.{Field, append_varint, append_tag}
use kt_witness.PbWire.Varint.{append_varint-append}
use kt_witness.PbWire.RoundTrip.{written, body}
use kt_witness.Signal.Node.{Value}
use kt_witness.SignalAudit.Update.{Update, different_key, same_key}
use kt_witness.SignalAudit.Encode.{
  append_bytes, append_number, append_copath, encode_body, encode_update,
}

abbrev pub bytes_at : ℕ → List ℕ → Field
bytes_at num bs = record { num = num; wire = 2; varint = 0; bytes = bs }

abbrev pub number_at : ℕ → ℕ → Field
number_at num v = record { num = num; wire = 0; varint = v; bytes = [] }

pub written-append : (fs gs : List Field) → written (fs ++ gs) ≡ written fs ++ written gs
written-append [] gs = refl
written-append (f ∷ fs) gs = rw (written-append fs gs) (
    sym (
      append_assoc (append_tag [] f.num f.wire) (body f ++ written fs) (written gs)
      ∙ ap (λ l. append_tag [] f.num f.wire ++ l)
          (append_assoc (body f) (written fs) (written gs))))

append_bytes-written :
    (b : List ℕ) (num : ℕ) (v : List ℕ) → append_bytes b num v ≡ b ++ written (bytes_at num v ∷ [])
unfolding append_bytes append_tag
append_bytes-written b num v =
    ap (λ l. l ++ v)
      (append_varint-append (append_varint b (num * 8 + 2)) (length v)
        ∙ ap (λ l. l ++ append_varint [] (length v)) (append_varint-append b (num * 8 + 2)))
    ∙ append_assoc (b ++ append_varint [] (num * 8 + 2)) (append_varint [] (length v)) v
    ∙ append_assoc b (append_varint [] (num * 8 + 2)) (append_varint [] (length v) ++ v)
    ∙ ap (λ l. b ++ (append_varint [] (num * 8 + 2) ++ l)) (sym (append-nil _))

written_number :
    (b : List ℕ) (num v : ℕ)
    → append_varint (append_tag b num 0) v ≡ b ++ written (number_at num v ∷ [])
unfolding append_tag
written_number b num v =
    append_varint-append (append_varint b (num * 8 + 0)) v
    ∙ ap (λ l. l ++ append_varint [] v) (append_varint-append b (num * 8 + 0))
    ∙ append_assoc b (append_varint [] (num * 8 + 0)) (append_varint [] v)
    ∙ ap (λ l. b ++ (append_varint [] (num * 8 + 0) ++ l)) (sym (append-nil _))

-- A number is left out when it is 0.
abbrev pub optional : ℕ → ℕ → List Field
optional num v = if v == 0 then [] else number_at num v ∷ []

append_number-written :
    (b : List ℕ) (num v : ℕ) → append_number b num v ≡ b ++ written (optional num v)
unfolding append_number
append_number-written b num v = elim (Bool-cases (v == 0)) [
  | inl e ↦ rw e (sym (append-nil b))
  | inr e ↦ rw e (written_number b num v)
]

append_copath-written :
    (b : List ℕ) (copath : List Value)
    → append_copath b copath ≡ b ++ written (map (bytes_at 1) copath)
unfolding append_copath
append_copath-written b [] = sym (append-nil b)
append_copath-written b (c ∷ rest) =
    append_copath-written (append_bytes b 1 c) rest
    ∙ ap (λ l. l ++ written (map (bytes_at 1) rest)) (append_bytes-written b 1 c)
    ∙ append_assoc b (written (bytes_at 1 c ∷ [])) (written (map (bytes_at 1) rest))
    ∙ ap (λ l. b ++ l) (sym (written-append (bytes_at 1 c ∷ []) (map (bytes_at 1) rest)))

abbrev pub parts_of : Update → List Field
parts_of u =
    if u.proof == different_key
    then bytes_at 2 u.old_seed ∷ []
    else if u.proof == same_key
    then optional 2 u.counter ++ optional 3 u.position
    else []

abbrev pub body_fields : Update → List Field
body_fields u = map (bytes_at 1) u.copath ++ parts_of u

abbrev pub update_fields : Update → List ℕ → List Field
update_fields u body =
    (if u.real then number_at 1 1 ∷ [] else [])
    ++ (bytes_at 2 u.index
        ∷ bytes_at 3 u.seed
        ∷ bytes_at 4 u.commitment
        ∷ bytes_at 5 (written (bytes_at u.proof body ∷ []))
        ∷ [])

-- One more field after those that are written.
append_bytes-after :
    (b : List ℕ) (fs : List Field) (num : ℕ) (v : List ℕ)
    → b ≡ written fs
    → append_bytes b num v ≡ written (fs ++ bytes_at num v ∷ [])
append_bytes-after b fs num v e =
    append_bytes-written b num v
    ∙ ap (λ l. l ++ written (bytes_at num v ∷ [])) e
    ∙ sym (written-append fs (bytes_at num v ∷ []))

append_number-after :
    (b : List ℕ) (fs : List Field) (num v : ℕ)
    → b ≡ written fs
    → append_number b num v ≡ written (fs ++ optional num v)
append_number-after b fs num v e =
    append_number-written b num v
    ∙ ap (λ l. l ++ written (optional num v)) e
    ∙ sym (written-append fs (optional num v))

pub encode_body-written : (u : Update) → encode_body u ≡ written (body_fields u)
unfolding encode_body
encode_body-written u =
    let path = append_copath-written [] u.copath in
    let copath = map (bytes_at 1) u.copath in
    elim (Bool-cases (u.proof == different_key)) [
      | inl e ↦ simp e (append_bytes-after _ copath 2 u.old_seed path)
      | inr e ↦ elim (Bool-cases (u.proof == same_key)) [
        | inl e' ↦
            simp (e, e')
              (append_number-after _ _ 3 u.position (append_number-after _ copath 2 u.counter path)
                ∙ ap written (append_assoc copath (optional 2 u.counter) (optional 3 u.position)))
        | inr e' ↦ simp (e, e') (path ∙ ap written (sym (append-nil copath)))
      ]
    ]

four_fields :
    (b : List ℕ) (u : Update) (rest : List Field) (p : List ℕ)
    → b ≡ written rest
    → append_bytes
        (append_bytes (append_bytes (append_bytes b 2 u.index) 3 u.seed) 4 u.commitment)
        5
        p
      ≡ written (
          (((rest ++ bytes_at 2 u.index ∷ []) ++ bytes_at 3 u.seed ∷ [])
            ++ bytes_at 4 u.commitment ∷ [])
          ++ bytes_at 5 p ∷ [])
four_fields b u rest p e = append_bytes-after _ _ 5 p (
    append_bytes-after _ _ 4 u.commitment
      (append_bytes-after _ _ 3 u.seed (append_bytes-after b rest 2 u.index e)))

pub encode_update-written :
    (u : Update) → encode_update u ≡ written (update_fields u (encode_body u))
unfolding encode_update
encode_update-written u =
    let proof = append_bytes-written [] u.proof (encode_body u) in
    elim (Bool-cases u.real) [
      | inl e ↦ simp (e, proof) (four_fields _ u (number_at 1 1 ∷ []) _ (written_number [] 1 1))
      | inr e ↦ simp (e, proof) (four_fields [] u [] _ refl)
    ]
