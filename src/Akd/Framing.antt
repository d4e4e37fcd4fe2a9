-- ===== src/Akd/Framing.antt =====
-- nextRecord of internal/akdtree/ranges.go beside walk of internal/akdtree/decode.go, and beside itself
-- on more bytes.
use kt_witness.Common.{
  ℕ, zero, suc, ◌+◌, ◌-◌, ◌*◌, ◌/◌, ◌%◌, ◌^◌, ◌≤◌, ◌≡◌, refl, ap, sym, subst, ◌∙◌, inl, inr, arith,
  Bool, true, false, Bool-cases, List, [], ◌∷◌, ◌++◌, length, length-append, take, drop, none, some,
  ltb, ◌==◌, if◌then◌else◌,
}
use kt_witness.Akd.Decode as D
use kt_witness.Akd.Decode.{
  Uvarint, short, overflow, read, read_uvarint, read_uvarint_loop, Decoded, Piece, delimited,
  numeric, fixed, piece_after, keyed, next_piece,
}
use kt_witness.Akd.Walk.{length-drop}
use kt_witness.Akd.Ranges.{
  Record, Framed, partial, malformed, framed, frame_delimited, frame_varint, frame_fixed,
  frame_after, frame_key, next_record,
}

drop_none : (n : ℕ) → drop {A = ℕ} n [] ≡ []
drop_none zero = refl
drop_none (suc n) = refl

drop-drop : (m n : ℕ) (bs : List ℕ) → drop m (drop n bs) ≡ drop (n + m) bs
drop-drop m zero bs = ap (λ k. drop k bs) (omega arith)
drop-drop m (suc n) [] = drop_none m ∙ sym (drop_none (suc n + m))
drop-drop m (suc n) (b ∷ bs) =
    drop-drop m n bs ∙ ap (λ k. drop k (b ∷ bs)) {x = suc (n + m)} (omega arith)

-- The same record, the same body and the same rest; or neither frames one.
abbrev pub Agrees : List ℕ → Framed → Decoded Piece → Type 0
Agrees bytes partial (D.err why) = Unit
Agrees bytes malformed (D.err why) = Unit
Agrees bytes (framed r) (D.ok p) =
    (p.field ≡ r.field)
    × (p.body ≡ (
        if r.wire == 2 then some (take (r.end - r.body_start) (drop r.body_start bytes)) else none))
    × (p.rest ≡ drop r.end bytes)
Agrees bytes _ _ = zero ≡ suc zero

Agrees-if :
    (bytes : List ℕ) (test : Bool) (f g : Framed) (d e : Decoded Piece)
    → Agrees bytes f d
    → Agrees bytes g e
    → Agrees bytes (if test then f else g) (if test then d else e)
Agrees-if bytes true f g d e h k = h
Agrees-if bytes false f g d e h k = k

module _ (bytes : List ℕ) (start pos field : ℕ) where
  delimited-Agrees :
      (u : Uvarint)
      → Agrees bytes (frame_delimited bytes field start pos u) (delimited field (drop pos bytes) u)
  delimited-Agrees short = tt
  delimited-Agrees overflow = tt
  delimited-Agrees (read l m) =
      let same : length (drop pos bytes) - m ≡ length bytes - (pos + m) =
        omega (arith, length-drop pos bytes) in
      rw same (
        Agrees-if bytes (ltb (length bytes - (pos + m)) l) partial (framed _) (D.err _) (D.ok _) tt
          (
            refl,
            ap some (
                ap (λ bs. take l bs) (drop-drop m pos bytes)
                ∙ ap (λ k. take k (drop (pos + m) bytes)) {x = l} (omega arith)),
            ap (λ bs. drop l bs) (drop-drop m pos bytes) ∙ drop-drop l (pos + m) bytes,
          ))

  varint-Agrees :
      (u : Uvarint)
      → Agrees bytes (frame_varint field start pos u) (numeric field (drop pos bytes) u)
  varint-Agrees short = tt
  varint-Agrees overflow = tt
  varint-Agrees (read v m) = (refl, refl, drop-drop m pos bytes)

  fixed-Agrees :
      (wire width : ℕ)
      → (wire == 2) ≡ false
      → Agrees bytes
          (frame_fixed bytes field wire start pos width)
          (fixed field width (drop pos bytes))
  fixed-Agrees wire width other = rw (length-drop pos bytes) (
      Agrees-if bytes (ltb (length bytes - pos) width) partial (framed _) (D.err _) (D.ok _) tt
        (refl, simp other refl, drop-drop width pos bytes))

frame_after-Agrees :
    (bytes : List ℕ) (key start pos : ℕ)
    → Agrees bytes (frame_after bytes key start pos) (piece_after key (drop pos bytes))
unfolding frame_after piece_after
frame_after-Agrees bytes key start pos =
    Agrees-if bytes (key % 8 == 2) _ _ _ _
      (delimited-Agrees bytes start pos (key / 8) (read_uvarint (drop pos bytes)))
      (Agrees-if bytes (key % 8 == 0) _ _ _ _
        (varint-Agrees bytes start pos (key / 8) (read_uvarint (drop pos bytes)))
        (Agrees-if bytes (key % 8 == 5) _ _ _ _ (fixed-Agrees bytes start pos (key / 8) 5 4 refl) (
          Agrees-if bytes (key % 8 == 1) _ _ _ _ (fixed-Agrees bytes start pos (key / 8) 1 8 refl)
            tt)))

-- nextRecord and a round of walk frame alike: the same field, body and rest where there is a record,
-- and none in either where the bytes end early or are malformed.
pub next_record-Agrees :
    (bytes : List ℕ) (pos : ℕ) → Agrees bytes (next_record bytes pos) (next_piece (drop pos bytes))
unfolding next_record next_piece
next_record-Agrees bytes pos = of_key (read_uvarint (drop pos bytes))
  where
    of_key : (u : Uvarint) → Agrees bytes (frame_key bytes pos u) (keyed (drop pos bytes) u)
    of_key short = tt
    of_key overflow = tt
    of_key (read key n) =
        subst (λ bs. Agrees bytes (frame_after bytes key pos (pos + n)) (piece_after key bs))
          (sym (drop-drop n pos bytes)) (frame_after-Agrees bytes key pos (pos + n))

-- What more bytes leave as it is: all but where the bytes end early.
abbrev Keeps : Uvarint → Uvarint → Type 0
Keeps short v = Unit
Keeps overflow v = v ≡ overflow
Keeps (read x n) v = v ≡ read x n

Keeps-same : (u : Uvarint) → Keeps u u
Keeps-same short = tt
Keeps-same overflow = refl
Keeps-same (read x n) = refl

Keeps-if :
    (test : Bool) (u v x y : Uvarint)
    → Keeps u x
    → Keeps v y
    → Keeps (if test then u else v) (if test then x else y)
Keeps-if true u v x y h k = h
Keeps-if false u v x y h k = k

read_uvarint_loop-Keeps :
    (i x : ℕ) (bs more : List ℕ)
    → Keeps (read_uvarint_loop i x bs) (read_uvarint_loop i x (bs ++ more))
unfolding read_uvarint_loop
read_uvarint_loop-Keeps i x [] more = tt
read_uvarint_loop-Keeps i x (b ∷ bs) more = Keeps-if (i == 10) _ _ _ _ refl (
    Keeps-if (ltb b 128) _ _ _ _ (Keeps-same _)
      (read_uvarint_loop-Keeps (i + 1) (x + b % 128 * 2 ^ (7 * i)) bs more))

read_uvarint-Keeps :
    (pos : ℕ) (bs more : List ℕ)
    → Keeps (read_uvarint (drop pos bs)) (read_uvarint (drop pos (bs ++ more)))
unfolding read_uvarint read_uvarint_loop
read_uvarint-Keeps zero bs more = read_uvarint_loop-Keeps 0 0 bs more
read_uvarint-Keeps (suc pos) [] more = tt
read_uvarint-Keeps (suc pos) (b ∷ bs) more = read_uvarint-Keeps pos bs more

abbrev pub Stable : Framed → Framed → Type 0
Stable partial g = Unit
Stable malformed g = g ≡ malformed
Stable (framed r) g = g ≡ framed r

Stable-if :
    (test : Bool) (f g h k : Framed)
    → Stable f h
    → Stable g k
    → Stable (if test then f else g) (if test then h else k)
Stable-if true f g h k a b = a
Stable-if false f g h k a b = b

-- A record that is there stays the same.
short-Stable :
    (a b c : ℕ) (r : Record)
    → a ≤ b
    → Stable (if ltb a c then partial else framed r) (if ltb b c then partial else framed r)
short-Stable a b c r h = elim (Bool-cases (ltb a c)) [
  | inl few ↦ simp few tt
  | inr enough ↦ let all : ltb b c ≡ false = ground (arith, h, enough) in simp (enough, all) refl
]

module _ (bytes more : List ℕ) (field start pos : ℕ) where
  longer_bytes : (k : ℕ) → length bytes - k ≤ length (bytes ++ more) - k
  longer_bytes k = omega (arith, length-append bytes more)

  delimited-Stable :
      (u v : Uvarint)
      → Keeps u v
      → Stable
          (frame_delimited bytes field start pos u)
          (frame_delimited (bytes ++ more) field start pos v)
  delimited-Stable short v h = tt
  delimited-Stable overflow v h = ap (λ w. frame_delimited (bytes ++ more) field start pos w) h
  delimited-Stable (read l m) v h =
      subst
        (λ w.
          Stable (frame_delimited bytes field start pos (read l m))
            (frame_delimited (bytes ++ more) field start pos w))
        (sym h)
        (short-Stable (length bytes - (pos + m)) (length (bytes ++ more) - (pos + m)) l _
          (longer_bytes (pos + m)))

  varint-Stable :
      (u v : Uvarint)
      → Keeps u v
      → Stable (frame_varint field start pos u) (frame_varint field start pos v)
  varint-Stable short v h = tt
  varint-Stable overflow v h = ap (λ w. frame_varint field start pos w) h
  varint-Stable (read x m) v h = ap (λ w. frame_varint field start pos w) h

frame_after-Stable :
    (bytes more : List ℕ) (key start pos : ℕ)
    → Stable (frame_after bytes key start pos) (frame_after (bytes ++ more) key start pos)
unfolding frame_after
frame_after-Stable bytes more key start pos =
    let keeps = read_uvarint-Keeps pos bytes more in
    let longer = longer_bytes bytes more (key / 8) start pos pos in
    Stable-if (key % 8 == 2) _ _ _ _ (delimited-Stable bytes more (key / 8) start pos _ _ keeps) (
      Stable-if (key % 8 == 0) _ _ _ _ (varint-Stable bytes more (key / 8) start pos _ _ keeps) (
        Stable-if (key % 8 == 5) _ _ _ _ (short-Stable _ _ 4 _ longer)
          (Stable-if (key % 8 == 1) _ _ _ _ (short-Stable _ _ 8 _ longer) refl)))

-- A record or an error that nextRecord finds is the same with more bytes behind.
pub next_record-Stable :
    (bytes more : List ℕ) (pos : ℕ)
    → Stable (next_record bytes pos) (next_record (bytes ++ more) pos)
unfolding next_record
next_record-Stable bytes more pos =
    of_key (read_uvarint (drop pos bytes)) (read_uvarint (drop pos (bytes ++ more)))
      (read_uvarint-Keeps pos bytes more)
  where
    of_key :
        (u v : Uvarint)
        → Keeps u v
        → Stable (frame_key bytes pos u) (frame_key (bytes ++ more) pos v)
    of_key short v h = tt
    of_key overflow v h = ap (λ w. frame_key (bytes ++ more) pos w) h
    of_key (read key n) v h =
        subst (λ w. Stable (frame_after bytes key pos (pos + n)) (frame_key (bytes ++ more) pos w))
          (sym h) (frame_after-Stable bytes more key pos (pos + n))
