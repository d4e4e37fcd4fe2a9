-- ===== src/Akd/Walk.antt =====
-- The loops of internal/akdtree/decode.go come to an end, and what they keep.
use kt_witness.Common.{
  ℕ, zero, suc, ◌+◌, ◌-◌, ◌*◌, ◌/◌, ◌%◌, ◌^◌, ◌≤◌, ◌<◌, ◌≡◌, refl, arith, Bool, true, false, List,
  [], ◌∷◌, length, take, drop, Option, none, some, ltb, ◌==◌, if◌then◌else◌, All,
}
use kt_witness.Akd.Decode.{
  Uvarint, short, overflow, read, read_uvarint_loop, read_uvarint, Decoded, stuck, err, ok, bind,
  Piece, delimited, numeric, fixed, piece_after, keyed, next_piece, Callback, apply_callback,
  walk_loop, read_label_loop,
}

-- A varint takes a byte at least and no more than there are.
read_uvarint_loop-read :
    (i x : ℕ) (bs : List ℕ) (v n : ℕ)
    → read_uvarint_loop i x bs ≡ read v n
    → (i < n) × (n ≤ i + length bs)
unfolding read_uvarint_loop
read_uvarint_loop-read i x [] v n h = absurd cc
read_uvarint_loop-read i x (b ∷ bs) v n h =
    let more = read_uvarint_loop-read (i + 1) (x + b % 128 * 2 ^ (7 * i)) bs v n in
    ground (arith, more)

pub read_uvarint-read :
    (bs : List ℕ) (v n : ℕ) → read_uvarint bs ≡ read v n → (0 < n) × (n ≤ length bs)
unfolding read_uvarint
read_uvarint-read bs v n h = omega (arith, read_uvarint_loop-read 0 0 bs v n h)

pub length-drop : (n : ℕ) (bs : List ℕ) → length (drop n bs) ≡ length bs - n
length-drop zero bs = omega arith
length-drop (suc n) [] = omega arith
length-drop (suc n) (b ∷ bs) = omega (arith, length-drop n bs)

pub All-drop : (P : ℕ → Type 0) (n : ℕ) (bs : List ℕ) → All P bs → All P (drop n bs)
All-drop P zero bs all = all
All-drop P (suc n) [] all = tt
All-drop P (suc n) (b ∷ bs) (h, all) = All-drop P n bs all

All-take : (P : ℕ → Type 0) (n : ℕ) (bs : List ℕ) → All P bs → All P (take n bs)
All-take P zero bs all = tt
All-take P (suc n) [] all = tt
All-take P (suc n) (b ∷ bs) (h, all) = (h, All-take P n bs all)

-- A result that is there, and an error or what is said of the value.
abbrev pub Yields : {A : Type 0} → (A → Type 0) → Decoded A → Type 0
Yields Q stuck = zero ≡ suc zero
Yields Q (err why) = Unit
Yields Q (ok a) = Q a

pub Yields-bind :
    {A B : Type 0} (Q : A → Type 0) (R : B → Type 0) (d : Decoded A) (next : A → Decoded B)
    → Yields Q d
    → ((a : A) → Q a → Yields R (next a))
    → Yields R (bind d next)
Yields-bind Q R stuck next h k = h
Yields-bind Q R (err why) next h k = tt
Yields-bind Q R (ok a) next h k = k a h

pub Yields-if :
    {A : Type 0} (Q : A → Type 0) (test : Bool) (d e : Decoded A)
    → Yields Q d
    → Yields Q e
    → Yields Q (if test then d else e)
Yields-if Q true d e h k = h
Yields-if Q false d e h k = k

abbrev pub OfBody : (ℕ → Type 0) → Option (List ℕ) → Type 0
OfBody P none = Unit
OfBody P (some body) = All P body

-- A field of fewer bytes than n, with bytes of the same kind.
abbrev pub IsPiece : (ℕ → Type 0) → ℕ → Piece → Type 0
IsPiece P n p = (length p.rest < n) × OfBody P p.body × All P p.rest

module _ (P : ℕ → Type 0) (n : ℕ) (bs : List ℕ) (all : All P bs) (small : length bs < n) where
  delimited-IsPiece : (field : ℕ) (u : Uvarint) → Yields (IsPiece P n) (delimited field bs u)
  delimited-IsPiece field short = tt
  delimited-IsPiece field overflow = tt
  delimited-IsPiece field (read l m) = Yields-if (IsPiece P n) (ltb (length bs - m) l) _ _ tt (
    omega (arith, length-drop l (drop m bs), length-drop m bs, small),
    All-take P l _ (All-drop P m bs all),
    All-drop P l _ (All-drop P m bs all),
  )

  numeric-IsPiece : (field : ℕ) (u : Uvarint) → Yields (IsPiece P n) (numeric field bs u)
  numeric-IsPiece field short = tt
  numeric-IsPiece field overflow = tt
  numeric-IsPiece field (read v m) =
      (omega (arith, length-drop m bs, small), tt, All-drop P m bs all)

  fixed-IsPiece : (field width : ℕ) → Yields (IsPiece P n) (fixed field width bs)
  fixed-IsPiece field width =
      Yields-if (IsPiece P n) (ltb (length bs) width) _ _ tt
        (omega (arith, length-drop width bs, small), tt, All-drop P width bs all)

  piece_after-IsPiece : (key : ℕ) → Yields (IsPiece P n) (piece_after key bs)
  unfolding piece_after
  piece_after-IsPiece key =
      Yields-if (IsPiece P n) (key % 8 == 2) _ _ (delimited-IsPiece (key / 8) (read_uvarint bs)) (
        Yields-if (IsPiece P n) (key % 8 == 0) _ _ (numeric-IsPiece (key / 8) (read_uvarint bs)) (
          Yields-if (IsPiece P n) (key % 8 == 5) _ _ (fixed-IsPiece (key / 8) 4)
            (Yields-if (IsPiece P n) (key % 8 == 1) _ _ (fixed-IsPiece (key / 8) 8) tt)))

pub next_piece-IsPiece :
    (P : ℕ → Type 0) (bs : List ℕ) → All P bs → Yields (IsPiece P (length bs)) (next_piece bs)
unfolding next_piece
next_piece-IsPiece P bs all = of_key (read_uvarint bs) (read_uvarint-read bs)
  where
    of_key :
        (u : Uvarint)
        → ((v n : ℕ) → u ≡ read v n → (0 < n) × (n ≤ length bs))
        → Yields (IsPiece P (length bs)) (keyed bs u)
    of_key short h = tt
    of_key overflow h = tt
    of_key (read key n) h =
        piece_after-IsPiece P (length bs) (drop n bs) (All-drop P n bs all)
          (omega (arith, length-drop n bs, h key n refl)) key

-- What every call of the callback keeps, walk keeps; and walk comes to an end if the callback does.
pub walk_loop-Yields :
    {S : Type 0} (P : ℕ → Type 0) (I : S → Type 0) (fn : Callback S)
    → ((field : ℕ) (body : List ℕ) (s : S) → All P body → I s → Yields I (fn field body s))
    → (rounds : ℕ) (bs : List ℕ) (s : S) → length bs ≤ rounds
    → All P bs
    → I s
    → Yields I (walk_loop rounds fn bs s)
unfolding walk_loop
walk_loop-Yields P I fn keeps rounds [] s h all i = i
walk_loop-Yields P I fn keeps zero (b ∷ bs) s h all i = absurd (omega arith)
walk_loop-Yields P I fn keeps (suc rounds) (b ∷ bs) s h all i =
    Yields-bind (IsPiece P (length (b ∷ bs))) I (next_piece (b ∷ bs)) _
      (next_piece-IsPiece P (b ∷ bs) all)
      (λ p piece.
        Yields-bind I I (apply_callback fn p p.body s) _ (applied p p.body piece.1) (λ t k.
          walk_loop-Yields P I fn keeps rounds p.rest t (omega (arith, piece.0, h)) piece.2 k))
  where
    applied :
        (p : Piece) (body : Option (List ℕ)) → OfBody P body → Yields I (apply_callback fn p body s)
    applied p none q = i
    applied p (some body) q = keeps p.field body s q i

pub read_label_loop-Yields :
    (rounds : ℕ) (bs : List ℕ) (len : ℕ)
    → length bs ≤ rounds
    → Yields (λ n. Unit {0}) (read_label_loop rounds bs len)
unfolding read_label_loop
read_label_loop-Yields rounds [] len h = tt
read_label_loop-Yields zero (b ∷ bs) len h = absurd (omega arith)
read_label_loop-Yields (suc rounds) (b ∷ bs) len h =
    Yields-bind (IsPiece (λ x. Unit {0}) (length (b ∷ bs))) (λ n. Unit {0}) (next_piece (b ∷ bs)) _
      (next_piece-IsPiece (λ x. Unit {0}) (b ∷ bs) (trivial (b ∷ bs)))
      (λ p piece. read_label_loop-Yields rounds p.rest _ (omega (arith, piece.0, h)))
  where
    trivial : (l : List ℕ) → All (λ x. Unit {0}) l
    trivial [] = tt
    trivial (x ∷ l) = (tt, trivial l)
