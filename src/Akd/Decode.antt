-- ===== src/Akd/Decode.antt =====
-- internal/akdtree/decode.go. A byte slice is the list of its bytes, and what is left of it after i
-- bytes is the rest. binary.Uvarint reads groups of seven bits, the lowest first: it answers 0 where
-- the bytes end before the varint does, and a negative count past 64 bits.
use kt_witness.Common.{
  ℕ, zero, suc, ◌+◌, ◌-◌, ◌*◌, ◌/◌, ◌%◌, ◌^◌, Bool, true, false, ◌&&◌, ◌||◌, not, List, [], ◌∷◌,
  ◌++◌, length, take, drop, Option, none, some, ltb, ◌==◌, if◌then◌else◌,
}
use kt_witness.PbWire.{big_endian}
use kt_witness.Akd.Label.{Element}

pub data Uvarint : Type 0 where
  short overflow : Uvarint
  read : ℕ → ℕ → Uvarint

unfoldable pub read_uvarint_loop : ℕ → ℕ → List ℕ → Uvarint
read_uvarint_loop i x [] = short
read_uvarint_loop i x (b ∷ bs) =
    let more = read_uvarint_loop (i + 1) (x + b % 128 * 2 ^ (7 * i)) bs in
    if i == 10
    then overflow
    else if ltb b 128
    then if (i == 9) && ltb 1 b then overflow else read (x + b * 2 ^ (7 * i)) (i + 1)
    else more

unfoldable pub read_uvarint : List ℕ → Uvarint
unfolding read_uvarint_loop
read_uvarint bs = read_uvarint_loop 0 0 bs

pub data Error : Type 0 where
  malformed_key truncated malformed_varint truncated_fixed unsupported label_size value_size missing
        label_len :
      Error

-- `stuck` is no Go value: a loop ran out of rounds.
pub data Decoded (A : Type 0) : Type 0 where
  stuck : Decoded A
  err : Error → Decoded A
  ok : A → Decoded A

abbrev pub bind : {A B : Type 0} → Decoded A → (A → Decoded B) → Decoded B
bind stuck next = stuck
bind (err why) next = err why
bind (ok a) next = next a

-- A field, its body where it is length-delimited, the value where it is a varint, and what is left.
pub record Piece : Type 0 where
  pub field : ℕ
  pub body : Option (List ℕ)
  pub number : Option ℕ
  pub rest : List ℕ

abbrev pub delimited : ℕ → List ℕ → Uvarint → Decoded Piece
delimited field bs short = err truncated
delimited field bs overflow = err truncated
delimited field bs (read l n) =
    if ltb (length bs - n) l
    then err truncated
    else ok (record {
      field = field;
      body = some (take l (drop n bs));
      number = none;
      rest = drop l (drop n bs);
    })

abbrev pub numeric : ℕ → List ℕ → Uvarint → Decoded Piece
numeric field bs short = err malformed_varint
numeric field bs overflow = err malformed_varint
numeric field bs (read v n) =
    ok (record { field = field; body = none; number = some v; rest = drop n bs })

abbrev pub fixed : ℕ → ℕ → List ℕ → Decoded Piece
fixed field width bs =
    if ltb (length bs) width
    then err truncated_fixed
    else ok (record { field = field; body = none; number = none; rest = drop width bs })

-- The switch on the wire type, the same in walk and in readLabelLen.
unfoldable pub piece_after : ℕ → List ℕ → Decoded Piece
piece_after key bs =
    if key % 8 == 2
    then delimited (key / 8) bs (read_uvarint bs)
    else if key % 8 == 0
    then numeric (key / 8) bs (read_uvarint bs)
    else if key % 8 == 5
    then fixed (key / 8) 4 bs
    else if key % 8 == 1
    then fixed (key / 8) 8 bs
    else err unsupported

abbrev pub keyed : List ℕ → Uvarint → Decoded Piece
keyed bs short = err malformed_key
keyed bs overflow = err malformed_key
keyed bs (read key n) = piece_after key (drop n bs)

-- One round of the loop.
unfoldable pub next_piece : List ℕ → Decoded Piece
unfolding piece_after
next_piece bs = keyed bs (read_uvarint bs)

-- What a callback of walk does to the variables that it captures.
abbrev pub Callback : Type 0 → Type 0
Callback S = ℕ → List ℕ → S → Decoded S

abbrev pub apply_callback : {S : Type 0} → Callback S → Piece → Option (List ℕ) → S → Decoded S
apply_callback fn p none s = ok s
apply_callback fn p (some body) s = fn p.field body s

unfoldable pub walk_loop : {S : Type 0} → ℕ → Callback S → List ℕ → S → Decoded S
unfolding next_piece
walk_loop rounds fn [] s = ok s
walk_loop zero fn (b ∷ bs) s = stuck
walk_loop (suc rounds) fn (b ∷ bs) s =
    bind (next_piece (b ∷ bs))
      (λ p. bind (apply_callback fn p p.body s) (λ t. walk_loop rounds fn p.rest t))

-- walk. A field takes a byte at least, so there are no more rounds than bytes.
abbrev pub walk : {S : Type 0} → Callback S → List ℕ → S → Decoded S
walk fn data_bytes s = walk_loop (length data_bytes) fn data_bytes s

-- The varint that readLabelLen takes for the length, cut to 32 bits.
abbrev pub taken_len : ℕ → Option ℕ → ℕ → ℕ
taken_len field none len = len
taken_len field (some v) len = if field == 2 then v % 2 ^ 32 else len

unfoldable pub read_label_loop : ℕ → List ℕ → ℕ → Decoded ℕ
unfolding next_piece
read_label_loop rounds [] len = ok len
read_label_loop zero (b ∷ bs) len = stuck
read_label_loop (suc rounds) (b ∷ bs) len =
    bind (next_piece (b ∷ bs)) (λ p. read_label_loop rounds p.rest (taken_len p.field p.number len))

abbrev pub read_label_len : List ℕ → ℕ → Decoded ℕ
read_label_len node_label len = read_label_loop (length node_label) node_label len

-- The number that bytes spell.
abbrev pub spelled : ℕ → List ℕ → ℕ
spelled acc [] = acc
spelled acc (b ∷ bs) = spelled (acc * 256 + b) bs

-- copy of some bytes to the front of a label
unfoldable pub copied : ℕ → List ℕ → ℕ
copied old lb = spelled 0 lb * 256 ^ (32 - length lb) + old % 256 ^ (32 - length lb)

-- The element that is filled, sawLabel and sawValue.
pub record Partial : Type 0 where
  pub element : Element
  pub saw_label : Bool
  pub saw_value : Bool

abbrev pub label_val : Callback ℕ
label_val f lb label =
    if f == 1 then if ltb 32 (length lb) then err label_size else ok (copied label lb) else ok label

abbrev pub element_field : Callback Partial
element_field field b p =
    let e = p.element in
    if field == 1
    then (bind (walk label_val b e.label)
        (λ label. ok (record p { element = record e { label = label }; saw_label = true })))
    else if field == 2
    then if not (length b == 32)
      then err value_size
      else ok (record p { element = record e { value = b }; saw_value = true })
    else ok p

abbrev pub len_field : Callback ℕ
len_field field b len = if not (field == 1) then ok len else read_label_len b len

abbrev pub no_element : Partial
no_element = record {
  element = record { label = 0; len = 0; value = big_endian 32 0 };
  saw_label = false;
  saw_value = false;
}

unfoldable pub decode_element : List ℕ → Decoded Element
unfolding walk_loop read_label_loop copied
decode_element body = bind (walk element_field body no_element) (λ p.
    bind (walk len_field body 0) (λ len.
      if not p.saw_label || not p.saw_value
      then err missing
      else if ltb 256 len
      then err label_len
      else ok (record p.element { len = len })))

-- The second pass of Decode.
abbrev pub proof_field : Callback (List Element × List Element)
proof_field field body s = bind (decode_element body) (λ e.
    if field == 1
    then ok (s.0 ++ (e ∷ []), s.1)
    else if field == 2
    then ok (s.0, s.1 ++ (e ∷ []))
    else ok s)

-- The first pass, which counts.
abbrev pub count_field : Callback (ℕ × ℕ)
count_field field body n =
    if field == 1 then ok (n.0 + 1, n.1) else if field == 2 then ok (n.0, n.1 + 1) else ok n

unfoldable pub decode : List ℕ → Decoded (List Element × List Element)
unfolding decode_element
decode bytes = bind (walk count_field bytes (0, 0)) (λ n. walk proof_field bytes ([], []))
