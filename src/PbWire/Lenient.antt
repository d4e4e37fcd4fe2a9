-- ===== src/PbWire/Lenient.antt =====
-- Where the strict decoder succeeds, the lenient one reads the same.
use native.Mathlib.Nat.{mod-eq_of_lt}
use kt_witness.Common.{
  ℕ, zero, suc, ◌+◌, ◌*◌, ◌/◌, ◌%◌, ◌^◌, ◌≤◌, ◌<◌, ◌≡◌, refl, sym, subst, false, ◌&&◌, ◌||◌, some,
  List, [], ◌∷◌, ◌++◌, length, arith, ltb, ◌-◌, ◌==◌, if◌then◌else◌, Bool-cases, inl, inr,
}
use kt_witness.PbWire.{
  Result, ok, err, stuck, ◌>>=◌, strict_loop, strict_uvarint, uvarint_loop, uvarint, Field,
  field_body, next_field, fields_loop, fields, Message, big_endian, parse_body, parse_field,
  parse_loop, parse,
}
use kt_witness.PbWire.Varint.{weight}

early_weight : (d n : ℕ) → n + d ≡ 8 → 2 ^ (7 * n) ≤ 2 ^ 56
early_weight zero n e = let same : n ≡ 8 = omega arith in rw same (omega arith)
early_weight (suc d) n e = omega (arith, weight n, early_weight d (n + 1) (omega arith))

-- A group that the strict decoder takes loses nothing to the width of a uint64.
group_fits :
    (left n x : ℕ)
    → suc left + n ≡ 10
    → ((n == 9) && ltb 1 x) ≡ false
    → x % 128 * 2 ^ (7 * n) % 2 ^ 64 ≡ x % 128 * 2 ^ (7 * n)
group_fits zero n x e fits =
    let tenth : n ≡ 9 = omega arith in
    let small : x < 2 = ground arith in
    subst (λ m. x % 128 * 2 ^ (7 * m) % 2 ^ 64 ≡ x % 128 * 2 ^ (7 * m)) (sym tenth) (omega arith)
group_fits (suc left) n x e fits = mod-eq_of_lt (grind (arith, early_weight left n (omega arith)))

uvarint_loop-of_strict :
    (left n v : ℕ) (bs : List ℕ) {w : ℕ} {r : List ℕ}
    → left + n ≡ 10
    → strict_loop left n v bs ≡ ok (w, r)
    → uvarint_loop v (7 * n) bs ≡ some (w, r)
unfolding strict_loop uvarint_loop
uvarint_loop-of_strict zero n v bs e h = cc
uvarint_loop-of_strict (suc left) n v [] e h = cc
uvarint_loop-of_strict (suc left) n v (x ∷ bs) e h = elim (Bool-cases ((n == 9) && ltb 1 x)) [
  | inl over ↦ cc (rw over at h)
  | inr fits ↦
      let room : ltb 63 (7 * n) ≡ false = ground arith in
      let next : 7 * n + 7 ≡ 7 * (n + 1) = omega arith in
      rw (room, group_fits left n x e fits, next)
        (elim (Bool-cases (ltb x 128)) [
          | inl last ↦ rw last (ground arith)
          | inr more ↦
              rw more
                (uvarint_loop-of_strict left (n + 1) _ bs (omega arith) (rw (fits, more) at h))
        ])
]

uvarint-of_strict :
    (bs : List ℕ) {w : ℕ} {r : List ℕ} → strict_uvarint bs ≡ ok (w, r) → uvarint bs ≡ some (w, r)
unfolding strict_uvarint uvarint
uvarint-of_strict bs h = uvarint_loop-of_strict 10 0 0 bs refl h

-- A chain of two that gives a value got one from its first part.
ok-of_chain :
    {A B : Type 0} {b : B} (next : A → Result B) (first : Result A)
    → (first >>= next) ≡ ok b
    → (v : A) × (first ≡ ok v) × (next v ≡ ok b)
ok-of_chain next stuck e = cc
ok-of_chain next (err why) e = cc
ok-of_chain next (ok v) e = (v, refl, e)

-- What one field adds to a message: a varint as eight bytes, bytes as they are, and nothing for the
-- fixed widths.
abbrev pub entry : Field → Message
entry f =
    if f.wire == 0
    then (f.num, big_endian 8 f.varint) ∷ []
    else if f.wire == 2
    then (f.num, f.bytes) ∷ []
    else []

abbrev pub entries : List Field → Message
entries [] = []
entries (f ∷ fs) = entry f ++ entries fs

parse_body-of_strict :
    (num wire : ℕ) (bs : List ℕ) (f : Field) (r : List ℕ)
    → field_body num wire bs ≡ ok (f, r)
    → parse_body num wire bs ≡ some (entry f, r)
unfolding field_body parse_body
parse_body-of_strict num wire bs f r h = elim (Bool-cases (wire == 0)) [
  | inl varint ↦
      let (a, read, same) = ok-of_chain _ (strict_uvarint bs) (rw varint at h) in
      rw (varint, uvarint-of_strict bs read) (ground arith)
  | inr not_varint ↦ elim (Bool-cases (wire == 2)) [
    | inl bytes ↦
        let (a, read, same) = ok-of_chain _ (strict_uvarint bs) (rw (not_varint, bytes) at h) in
        rw (not_varint, bytes, uvarint-of_strict bs read) (ground arith)
    | inr fixed ↦ rw (not_varint, fixed) (ground arith)
  ]
]

parse_field-of_strict :
    (bs : List ℕ) (f : Field) (r : List ℕ)
    → next_field bs ≡ ok (f, r)
    → parse_field bs ≡ some (entry f, r)
unfolding next_field parse_field
parse_field-of_strict bs f r h =
    let (k, read, rest) = ok-of_chain _ (strict_uvarint bs) h in
    elim (Bool-cases ((k.0 / 8 == 0) || ltb (2 ^ 29 - 1) (k.0 / 8))) [
      | inl bad ↦ cc (rw bad at rest)
      | inr good ↦
          rw (uvarint-of_strict bs read, parse_field)
            (parse_body-of_strict (k.0 / 8) (k.0 % 8) k.1 f r (rw good at rest))
    ]

parse_loop-of_strict :
    (rounds : ℕ) (bs : List ℕ) (fs : List Field)
    → fields_loop rounds bs ≡ ok fs
    → parse_loop rounds bs ≡ entries fs
unfolding fields_loop parse_loop
parse_loop-of_strict rounds [] fs h = let e : [] ≡ fs = ground arith in rw (← e) refl
parse_loop-of_strict zero (x ∷ bs) fs h = cc
parse_loop-of_strict (suc rounds) (x ∷ bs) fs h =
    let ((f, r), one, h') = ok-of_chain _ (next_field (x ∷ bs)) h in
    let (gs, more, same) = ok-of_chain _ (fields_loop rounds r) h' in
    let all : f ∷ gs ≡ fs = ground arith in
    rw
      (
        parse_field-of_strict (x ∷ bs) f r one,
        parse_loop,
        parse_loop-of_strict rounds r gs more,
        ← all,
      )
      refl

-- Where Fields accepts, Parse gives the varints, as eight bytes, and the length-delimited fields that
-- Fields reads, in their order; of the fixed-width fields it gives none.
pub parse-of_fields : (bs : List ℕ) (fs : List Field) → fields bs ≡ ok fs → parse bs ≡ entries fs
unfolding fields parse
parse-of_fields bs fs h = parse_loop-of_strict (length bs) bs fs h
