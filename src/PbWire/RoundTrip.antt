-- ===== src/PbWire/RoundTrip.antt =====
-- Fields always ends, and reads back what the append functions write.
use mathlib.Core.List.{append_assoc}
use kt_witness.Common.{
  ℕ, zero, suc, ◌+◌, ◌*◌, ◌/◌, ◌%◌, ◌^◌, ◌≤◌, ◌<◌, ◌-◌, ◌≡◌, ◌≢◌, refl, ap, subst, Bool, true,
  false, ◌&&◌, ◌||◌, List, [], ◌∷◌, ◌++◌, length, take, drop, All, arith, ltb, ◌==◌, if◌then◌else◌,
  length-append,
}
use kt_witness.PbWire.{
  Error, Result, ok, err, stuck, ◌>>=◌, append_varint, append_tag, strict_loop, strict_uvarint,
  Field, take_bytes, field_body, next_field, fields_loop, fields, truncated_bytes,
}
use kt_witness.PbWire.Varint.{strict_uvarint-append_varint}

-- A result that is a value leaves less than there was.
abbrev Shrinks {ℓ} : {A : Type ℓ} → ℕ → Result (A × List ℕ) → Type 0
Shrinks n (ok (a, r)) = length r < n
Shrinks n (err e) = Unit
Shrinks n stuck = ⊥

Shrinks-mono : {A : Type 0} (m n : ℕ) (r : Result (A × List ℕ)) → m ≤ n → Shrinks m r → Shrinks n r
Shrinks-mono m n (ok (a, r)) h s = omega arith
Shrinks-mono m n (err e) h s = tt
Shrinks-mono m n stuck h s = absurd s

Shrinks-bind :
    {A B : Type 0} (n k : ℕ) (m : Result (A × List ℕ)) (f : A × List ℕ → Result (B × List ℕ))
    → Shrinks n m
    → ((a : A) (r : List ℕ) → length r < n → Shrinks k (f (a, r)))
    → Shrinks k (m >>= f)
Shrinks-bind n k (ok (a, r)) f s h = h a r s
Shrinks-bind n k (err e) f s h = tt
Shrinks-bind n k stuck f s h = absurd s

Shrinks-if :
    {A : Type 0} (n : ℕ) (b : Bool) (p q : Result (A × List ℕ))
    → Shrinks n p
    → Shrinks n q
    → Shrinks n (if b then p else q)
Shrinks-if n true p q sp sq = sp
Shrinks-if n false p q sp sq = sq

strict_loop-Shrinks : (left n v : ℕ) (bs : List ℕ) → Shrinks (length bs) (strict_loop left n v bs)
unfolding strict_loop
strict_loop-Shrinks zero n v bs = tt
strict_loop-Shrinks (suc left) n v [] = tt
strict_loop-Shrinks (suc left) n v (x ∷ bs) = Shrinks-if _ ((n == 9) && ltb 1 x) _ _ tt (
    Shrinks-if _ (ltb x 128) _ _ (omega arith)
      (Shrinks-mono (length bs) _ _ (omega arith) (strict_loop-Shrinks left (n + 1) _ bs)))

strict_uvarint-Shrinks : (bs : List ℕ) → Shrinks (length bs) (strict_uvarint bs)
unfolding strict_uvarint
strict_uvarint-Shrinks bs = strict_loop-Shrinks 10 0 0 bs

length-drop-le : (n : ℕ) (bs : List ℕ) → length (drop n bs) ≤ length bs
length-drop-le zero bs = omega arith
length-drop-le (suc n) [] = omega arith
length-drop-le (suc n) (x ∷ bs) = omega (arith, length-drop-le n bs)

take_bytes-Shrinks :
    (num wire n : ℕ) (e : Error) (bs : List ℕ)
    → Shrinks (suc (length bs)) (take_bytes num wire n e bs)
take_bytes-Shrinks num wire n e bs =
    Shrinks-if _ (ltb (length bs) n) _ _ tt (omega (arith, length-drop-le n bs))

field_body-Shrinks :
    (num wire : ℕ) (bs : List ℕ) → Shrinks (suc (length bs)) (field_body num wire bs)
unfolding field_body
field_body-Shrinks num wire bs =
    Shrinks-if _ (wire == 0) _ _
      (Shrinks-bind (length bs) _ _ _ (strict_uvarint-Shrinks bs) (λ a r h. omega arith))
      (Shrinks-if _ (wire == 2) _ _
        (Shrinks-bind (length bs) _ _ _ (strict_uvarint-Shrinks bs) (λ a r h.
          Shrinks-mono (suc (length r)) _ _ (omega arith) (take_bytes-Shrinks num 2 a _ r)))
        (Shrinks-if _ (wire == 1) _ _ (take_bytes-Shrinks num 1 8 _ bs)
          (Shrinks-if _ (wire == 5) _ _ (take_bytes-Shrinks num 5 4 _ bs) tt)))

next_field-Shrinks : (bs : List ℕ) → Shrinks (length bs) (next_field bs)
unfolding next_field
next_field-Shrinks bs = Shrinks-bind (length bs) _ _ _ (strict_uvarint-Shrinks bs) (λ k r h.
    Shrinks-if _ ((k / 8 == 0) || ltb (2 ^ 29 - 1) (k / 8)) _ _ tt
      (Shrinks-mono (suc (length r)) _ _ (omega arith) (field_body-Shrinks (k / 8) (k % 8) r)))

-- One round of the loop: a field, if there is one, leaves few enough bytes for the rounds that remain.
round-ne-stuck :
    (rounds n : ℕ) (m : Result (Field × List ℕ))
    → Shrinks n m
    → n ≤ suc rounds
    → ((bs : List ℕ) → length bs ≤ rounds → fields_loop rounds bs ≢ stuck)
    → (m >>= λ f. fields_loop rounds f.1 >>= λ fs. ok (f.0 ∷ fs)) ≢ stuck
round-ne-stuck rounds n (ok (f, r)) s h ih e = last (fields_loop rounds r) (ih r (omega arith)) e
  where
    last : (m : Result (List Field)) → m ≢ stuck → (m >>= λ fs. ok (f ∷ fs)) ≢ stuck
    last (ok fs) ne e = cc
    last (err x) ne e = cc
    last stuck ne e = ne refl
round-ne-stuck rounds n (err x) s h ih e = cc
round-ne-stuck rounds n stuck s h ih e = s

fields_loop-ne-stuck :
    (rounds : ℕ) (bs : List ℕ) → length bs ≤ rounds → fields_loop rounds bs ≢ stuck
unfolding fields_loop
fields_loop-ne-stuck rounds [] h e = cc
fields_loop-ne-stuck zero (x ∷ bs) h e = omega arith
fields_loop-ne-stuck (suc rounds) (x ∷ bs) h e =
    round-ne-stuck rounds (length (x ∷ bs)) (next_field (x ∷ bs)) (next_field-Shrinks (x ∷ bs)) h
      (fields_loop-ne-stuck rounds) e

-- Fields ends on every input: with a fields list or with an error.
pub fields-ne-stuck : (bs : List ℕ) → fields bs ≢ stuck
unfolding fields
fields-ne-stuck bs = fields_loop-ne-stuck (length bs) bs (omega arith)

-- The bytes of a field, as the append functions and the callers' own appends write them.
abbrev pub body : Field → List ℕ
body f =
    if f.wire == 0
    then append_varint [] f.varint
    else if f.wire == 2
    then append_varint [] (length f.bytes) ++ f.bytes
    else f.bytes

abbrev pub written : List Field → List ℕ
written [] = []
written (f ∷ fs) = append_tag [] f.num f.wire ++ (body f ++ written fs)

-- A field that a message can hold: a number in range, and a payload that goes with its wire type.
pub data IsField : Field → Type 0 where
  varint_field :
      (num v : ℕ)
      → 0 < num
      → num < 2 ^ 29
      → v < 2 ^ 64
      → IsField (record { num = num; wire = 0; varint = v; bytes = [] })
  bytes_field :
      (num : ℕ) (bs : List ℕ)
      → 0 < num
      → num < 2 ^ 29
      → length bs < 2 ^ 64
      → IsField (record { num = num; wire = 2; varint = 0; bytes = bs })
  fixed64_field :
      (num : ℕ) (bs : List ℕ)
      → 0 < num
      → num < 2 ^ 29
      → length bs ≡ 8
      → IsField (record { num = num; wire = 1; varint = 0; bytes = bs })
  fixed32_field :
      (num : ℕ) (bs : List ℕ)
      → 0 < num
      → num < 2 ^ 29
      → length bs ≡ 4
      → IsField (record { num = num; wire = 5; varint = 0; bytes = bs })

take-append : (bs rest : List ℕ) → take (length bs) (bs ++ rest) ≡ bs
take-append [] rest = refl
take-append (x ∷ bs) rest = ap (λ l. x ∷ l) (take-append bs rest)

drop-append : (bs rest : List ℕ) → drop (length bs) (bs ++ rest) ≡ rest
drop-append [] rest = refl
drop-append (x ∷ bs) rest = drop-append bs rest

take_bytes-append :
    (num wire n : ℕ) (e : Error) (bs rest : List ℕ)
    → length bs ≡ n
    → take_bytes num wire n e (bs ++ rest)
      ≡ ok (record { num = num; wire = wire; varint = 0; bytes = bs }, rest)
take_bytes-append num wire n e bs rest h =
    let enough : ltb (length (bs ++ rest)) (length bs) ≡ false =
      ground (arith, length-append bs rest) in
    rw (← h, enough, take-append bs rest, drop-append bs rest) refl

field_body-of_body :
    (f : Field) (rest : List ℕ)
    → IsField f
    → field_body f.num f.wire (body f ++ rest) ≡ ok (f, rest)
unfolding field_body
field_body-of_body f rest (varint_field num v h l b) =
    rw (strict_uvarint-append_varint v rest b) refl
field_body-of_body f rest (bytes_field num bs h l b) =
    rw
      (
        append_assoc (append_varint [] (length bs)) bs rest,
        strict_uvarint-append_varint (length bs) (bs ++ rest) b,
      )
      (take_bytes-append num 2 (length bs) truncated_bytes bs rest refl)
field_body-of_body f rest (fixed64_field num bs h l b) = take_bytes-append num 1 8 _ bs rest b
field_body-of_body f rest (fixed32_field num bs h l b) = take_bytes-append num 5 4 _ bs rest b

IsField-bounds : (f : Field) → IsField f → (0 < f.num) × (f.num < 2 ^ 29) × (f.wire < 8)
IsField-bounds f (varint_field num v h l b) = (h, l, omega arith)
IsField-bounds f (bytes_field num bs h l b) = (h, l, omega arith)
IsField-bounds f (fixed64_field num bs h l b) = (h, l, omega arith)
IsField-bounds f (fixed32_field num bs h l b) = (h, l, omega arith)

next_field-of_written :
    (f : Field) (rest : List ℕ)
    → IsField f
    → next_field (append_tag [] f.num f.wire ++ (body f ++ rest)) ≡ ok (f, rest)
unfolding next_field append_tag
next_field-of_written f rest w =
    let (positive, small, wire) = IsField-bounds f w in
    let key : ℕ = f.num * 8 + f.wire in
    let num : key / 8 ≡ f.num = omega arith in
    let wire_of : key % 8 ≡ f.wire = omega arith in
    let valid : ((f.num == 0) || ltb (2 ^ 29 - 1) f.num) ≡ false = ground arith in
    rw
      (
        next_field,
        append_tag,
        strict_uvarint-append_varint key (body f ++ rest) (omega arith),
        num,
        wire_of,
        valid,
      )
      (field_body-of_body f rest w)

-- A result that leaves less came from a list that is not empty.
not_empty :
    (bs : List ℕ) (f : Field) (r : List ℕ) → next_field bs ≡ ok (f, r) → length r < length bs
not_empty bs f r h = subst (Shrinks (length bs)) h (next_field-Shrinks bs)

fields_loop-step :
    (rounds : ℕ) (bs r : List ℕ) (f : Field) (fs : List Field)
    → next_field bs ≡ ok (f, r)
    → length bs ≤ rounds
    → ((n : ℕ) → length r ≤ n → fields_loop n r ≡ ok fs)
    → fields_loop rounds bs ≡ ok (f ∷ fs)
unfolding fields_loop
fields_loop-step rounds [] r f fs one enough rest = absurd (omega (arith, not_empty [] f r one))
fields_loop-step zero (x ∷ bs) r f fs one enough rest = absurd (omega arith)
fields_loop-step (suc rounds) (x ∷ bs) r f fs one enough rest =
    rw (one, rest rounds (omega (arith, not_empty (x ∷ bs) f r one))) refl

fields_loop-of_written :
    (fs : List Field) (rounds : ℕ)
    → All IsField fs
    → length (written fs) ≤ rounds
    → fields_loop rounds (written fs) ≡ ok fs
unfolding fields_loop
fields_loop-of_written [] rounds w h = refl
fields_loop-of_written (f ∷ fs) rounds (w, ws) h =
    fields_loop-step rounds (written (f ∷ fs)) (written fs) f fs
      (next_field-of_written f (written fs) w) h (λ n. fields_loop-of_written fs n ws)

-- Fields reads back every list of fields in range that the append functions and the callers' appends
-- of the payloads write: each field, in order.
pub fields-of_written : (fs : List Field) → All IsField fs → fields (written fs) ≡ ok fs
unfolding fields
fields-of_written fs ws = fields_loop-of_written fs (length (written fs)) ws (omega arith)
