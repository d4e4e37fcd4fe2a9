-- ===== src/Akd/Payload.antt =====
-- The payload bytes of a field of a proof, in order: the reference for PayloadOffset of
-- internal/akdtree/ranges.go, as its comment describes them. An element is a record of the field; its
-- payload is the label_val (field 1) of its NodeLabels (field 1) and its values (field 2).
use kt_witness.Common.{
  ℕ, zero, suc, ◌+◌, ◌-◌, ◌≤◌, ◌<◌, ◌≡◌, refl, ap, ◌∙◌, arith, ◌&&◌, List, [], ◌∷◌, ◌++◌, length,
  take, drop, get_elem?, ltb, ◌==◌, if◌then◌else◌,
}
use kt_witness.Akd.Walk.{length-drop}
use kt_witness.Akd.Ranges.{
  Record, Framed, partial, malformed, framed, next_record, Ranged, stuck, refused, ok, bind,
}

abbrev pub slice : List ℕ → Record → List ℕ
slice bytes r = take (r.end - r.body_start) (drop r.body_start bytes)

-- What f gives of the records from pos on that begin before stop, one after the other.
abbrev pub with_framed : (Record → Ranged (List ℕ)) → Framed → Ranged (List ℕ)
with_framed next partial = refused
with_framed next malformed = refused
with_framed next (framed r) = next r

unfoldable pub gathered : ℕ → List ℕ → ℕ → (Record → Ranged (List ℕ)) → ℕ → Ranged (List ℕ)
gathered zero bytes stop f pos = stuck
gathered (suc rounds) bytes stop f pos =
    let more =
      with_framed
        (λ r. bind (f r) (λ a. bind (gathered rounds bytes stop f r.end) (λ b. ok (a ++ b))))
        (next_record bytes pos) in
    if ltb pos stop then more else ok []

abbrev pub label_payload : List ℕ → Record → Ranged (List ℕ)
label_payload bytes l = if (l.wire == 2) && (l.field == 1) then ok (slice bytes l) else ok []

abbrev pub element_payload : List ℕ → Record → Ranged (List ℕ)
element_payload bytes e =
    if (e.wire == 2) && (e.field == 1)
    then gathered (suc (length bytes)) bytes e.end (label_payload bytes) e.body_start
    else if (e.wire == 2) && (e.field == 2)
    then ok (slice bytes e)
    else ok []

abbrev pub field_payload : List ℕ → ℕ → Record → Ranged (List ℕ)
field_payload bytes field r =
    if (r.wire == 2) && (r.field == field)
    then gathered (suc (length bytes)) bytes r.end (element_payload bytes) r.body_start
    else ok []

-- All payload bytes of the field.
unfoldable pub payload_of : List ℕ → ℕ → Ranged (List ℕ)
unfolding gathered
payload_of bytes field =
    gathered (suc (length bytes)) bytes (length bytes) (field_payload bytes field) 0

-- Places in lists.
pub get_elem-left :
    (xs ys : List ℕ) (i : ℕ) → i < length xs → get_elem? (xs ++ ys) i ≡ get_elem? xs i
get_elem-left [] ys i h = absurd (omega arith)
get_elem-left (x ∷ xs) ys zero h = refl
get_elem-left (x ∷ xs) ys (suc i) h = get_elem-left xs ys i (omega arith)

pub get_elem-right :
    (xs ys : List ℕ) (i : ℕ) → get_elem? (xs ++ ys) (length xs + i) ≡ get_elem? ys i
get_elem-right [] ys i = ap (λ k. get_elem? ys k) (omega arith)
get_elem-right (x ∷ xs) ys i =
    ap (λ k. get_elem? (x ∷ xs ++ ys) k) {y = suc (length xs + i)} (omega arith)
    ∙ get_elem-right xs ys i

get_elem-take : (k i : ℕ) (xs : List ℕ) → i < k → get_elem? (take k xs) i ≡ get_elem? xs i
get_elem-take zero i xs h = absurd (omega arith)
get_elem-take (suc k) i [] h = refl
get_elem-take (suc k) zero (x ∷ xs) h = refl
get_elem-take (suc k) (suc i) (x ∷ xs) h = get_elem-take k i xs (omega arith)

get_elem-drop : (k i : ℕ) (xs : List ℕ) → get_elem? (drop k xs) i ≡ get_elem? xs (k + i)
get_elem-drop zero i xs = ap (λ j. get_elem? xs j) (omega arith)
get_elem-drop (suc k) i [] = refl
get_elem-drop (suc k) i (x ∷ xs) =
    get_elem-drop k i xs ∙ ap (λ j. get_elem? (x ∷ xs) j) {x = suc (k + i)} (omega arith)

length-take : (k : ℕ) (xs : List ℕ) → k ≤ length xs → length (take k xs) ≡ k
length-take zero xs h = refl
length-take (suc k) [] h = absurd (omega arith)
length-take (suc k) (x ∷ xs) h = ap suc (length-take k xs (omega arith))

pub length-slice :
    (bytes : List ℕ) (r : Record)
    → r.body_start ≤ r.end
    → r.end ≤ length bytes
    → length (slice bytes r) ≡ r.end - r.body_start
length-slice bytes r low high =
    length-take (r.end - r.body_start) (drop r.body_start bytes)
      (omega (arith, low, high, length-drop r.body_start bytes))

pub get_elem-slice :
    (bytes : List ℕ) (r : Record) (i : ℕ)
    → i < r.end - r.body_start
    → get_elem? (slice bytes r) i ≡ get_elem? bytes (r.body_start + i)
get_elem-slice bytes r i h =
    get_elem-take (r.end - r.body_start) i (drop r.body_start bytes) h
    ∙ get_elem-drop r.body_start i bytes
