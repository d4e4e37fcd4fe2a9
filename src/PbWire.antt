-- ===== src/PbWire.antt =====
-- internal/pbwire/pbwire.go. A byte slice is the list of its bytes, and an offset i into b is the rest
-- b[i:]. The groups of a varint do not overlap, so `|` adds them; x & 0x7f is x % 128, and x & 0x80 is
-- 0 where x < 128.
pub mod Varint
pub mod Lenient
pub mod RoundTrip
mod Examples
use kt_witness.Common.{
  ℕ, zero, suc, ◌+◌, ◌*◌, ◌/◌, ◌%◌, ◌^◌, ◌-◌, Bool, true, false, ◌&&◌, ◌||◌, List, [], ◌∷◌, ◌++◌,
  Option, none, some, length, take, drop, ltb, ◌==◌, if◌then◌else◌,
}

pub data Error : Type 0 where
  truncated overflows too_long invalid_number truncated_bytes truncated_fixed unsupported_wire :
      Error

-- Go's value and error. `stuck` is no Go value: the loop of Fields ran out of rounds.
pub data Result {ℓ} (A : Type ℓ) : Type ℓ where
  stuck : Result A
  err : Error → Result A
  ok : A → Result A

infixl 5 ◌>>=◌
abbrev pub ◌>>=◌ : {A B : Type 0} → Result A → (A → Result B) → Result B
stuck >>= next = stuck
err why >>= next = err why
ok v >>= next = next v

-- AppendVarint, for at most `rounds` bytes.
append_loop : ℕ → List ℕ → ℕ → List ℕ
append_loop zero b v = b
append_loop (suc rounds) b v =
    let more = append_loop rounds (b ++ (v % 128 + 128) ∷ []) (v / 128) in
    if v / 128 == 0 then b ++ (v % 128) ∷ [] else more

unfoldable pub append_varint : List ℕ → ℕ → List ℕ
unfolding append_loop
append_varint b v = append_loop 10 b v

-- uint64(field)<<3 | uint64(wire), for a wire type below 8.
unfoldable pub append_tag : List ℕ → ℕ → ℕ → List ℕ
append_tag b field wire = append_varint b (field * 8 + wire)

-- strictUvarint, with n groups read and `left` more allowed.
strict_loop : ℕ → ℕ → ℕ → List ℕ → Result (ℕ × List ℕ)
strict_loop zero n v bs = err too_long
strict_loop (suc left) n v [] = err truncated
strict_loop (suc left) n v (x ∷ bs) =
    let v' = v + x % 128 * 2 ^ (7 * n) in
    let more = strict_loop left (n + 1) v' bs in
    if (n == 9) && ltb 1 x then err overflows else if ltb x 128 then ok (v', bs) else more

unfoldable pub strict_uvarint : List ℕ → Result (ℕ × List ℕ)
unfolding strict_loop
strict_uvarint bs = strict_loop 10 0 0 bs

-- uvarint; `none` is its false.
uvarint_loop : ℕ → ℕ → List ℕ → Option (ℕ × List ℕ)
uvarint_loop s sh [] = none
uvarint_loop s sh (x ∷ bs) =
    let s' = s + x % 128 * 2 ^ sh % 2 ^ 64 in
    let more = uvarint_loop s' (sh + 7) bs in
    if ltb 63 sh then none else if ltb x 128 then some (s', bs) else more

unfoldable pub uvarint : List ℕ → Option (ℕ × List ℕ)
unfolding uvarint_loop
uvarint bs = uvarint_loop 0 0 bs

pub record Field : Type 0 where
  pub num : ℕ
  pub wire : ℕ
  pub varint : ℕ
  pub bytes : List ℕ

abbrev take_bytes : ℕ → ℕ → ℕ → Error → List ℕ → Result (Field × List ℕ)
take_bytes num wire n e bs =
    if ltb (length bs) n
    then err e
    else ok (record { num = num; wire = wire; varint = 0; bytes = take n bs }, drop n bs)

-- The switch of Fields on the wire type.
field_body : ℕ → ℕ → List ℕ → Result (Field × List ℕ)
field_body num wire bs =
    if wire == 0
    then (strict_uvarint bs >>= λ r.
        ok (record { num = num; wire = 0; varint = r.0; bytes = [] }, r.1))
    else if wire == 2
    then (strict_uvarint bs >>= λ r. take_bytes num 2 r.0 truncated_bytes r.1)
    else if wire == 1
    then take_bytes num 1 8 truncated_fixed bs
    else if wire == 5
    then take_bytes num 5 4 truncated_fixed bs
    else err unsupported_wire

next_field : List ℕ → Result (Field × List ℕ)
unfolding field_body
next_field bs = strict_uvarint bs >>= λ r.
    if (r.0 / 8 == 0) || ltb (2 ^ 29 - 1) (r.0 / 8)
    then err invalid_number
    else field_body (r.0 / 8) (r.0 % 8) r.1

fields_loop : ℕ → List ℕ → Result (List Field)
unfolding next_field
fields_loop rounds [] = ok []
fields_loop zero (x ∷ bs) = stuck
fields_loop (suc rounds) (x ∷ bs) =
    next_field (x ∷ bs) >>= λ f. fields_loop rounds f.1 >>= λ fs. ok (f.0 ∷ fs)

-- Fields. A field takes a byte at least, so there are no more rounds than bytes.
unfoldable pub fields : List ℕ → Result (List Field)
unfolding fields_loop
fields bs = fields_loop (length bs) bs

-- Message: the values in order of appearance, each under its field number.
abbrev pub Message : Type 0
Message = List (ℕ × List ℕ)

-- binary.BigEndian.PutUint64
abbrev pub big_endian : ℕ → ℕ → List ℕ
big_endian zero v = []
big_endian (suc n) v = v / 256 ^ n % 256 ∷ big_endian n v

-- One field of Parse: what it adds to the message and where it goes on. `none` ends the loop.
parse_body : ℕ → ℕ → List ℕ → Option (Message × List ℕ)
parse_body field wire bs =
    if wire == 0
    then elim (uvarint bs) [
      | none ↦ none
      | some (v, rest) ↦ some ((field, big_endian 8 v) ∷ [], rest)
    ]
    else if wire == 2
    then elim (uvarint bs) [
      | none ↦ none
      | some (n, rest) ↦
          if ltb (length rest) n then none else some ((field, take n rest) ∷ [], drop n rest)
    ]
    else if wire == 5
    then (if ltb (length bs) 4 then none else some ([], drop 4 bs))
    else if wire == 1
    then (if ltb (length bs) 8 then none else some ([], drop 8 bs))
    else none

parse_field : List ℕ → Option (Message × List ℕ)
unfolding parse_body
parse_field bs = elim (uvarint bs) [
  | none ↦ none
  | some (k, rest) ↦ parse_body (k / 8) (k % 8) rest
]

parse_loop : ℕ → List ℕ → Message
unfolding parse_field
parse_loop rounds [] = []
parse_loop zero (x ∷ bs) = []
parse_loop (suc rounds) (x ∷ bs) = elim (parse_field (x ∷ bs)) [
  | none ↦ []
  | some (m, rest) ↦ m ++ parse_loop rounds rest
]

unfoldable pub parse : List ℕ → Message
unfolding parse_loop
parse bs = parse_loop (length bs) bs

unfoldable pub first : Message → ℕ → Option (List ℕ)
first [] field = none
first ((f, v) ∷ m) field = if f == field then some v else first m field
