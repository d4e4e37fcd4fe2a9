-- ===== src/Akd/Ranges.antt =====
-- internal/akdtree/ranges.go: where the records of a proof are. A position is a number of bytes from the
-- front of data.
use kt_witness.Common.{
  ℕ, zero, suc, ◌+◌, ◌-◌, ◌/◌, ◌%◌, Bool, true, false, ◌&&◌, ◌||◌, not, List, [], ◌∷◌, length, drop,
  Option, none, some, ltb, leb, ◌==◌, if◌then◌else◌,
}
use kt_witness.Akd.Decode.{Uvarint, short, overflow, read, read_uvarint}

pub record Record : Type 0 where
  pub field : ℕ
  pub wire : ℕ
  pub start : ℕ
  pub body_start : ℕ
  pub end : ℕ

-- What nextRecord answers: data ends before the record does, an error, or the record.
pub data Framed : Type 0 where
  partial malformed : Framed
  framed : Record → Framed

abbrev pub frame_delimited : List ℕ → ℕ → ℕ → ℕ → Uvarint → Framed
frame_delimited bytes field start pos short = partial
frame_delimited bytes field start pos overflow = malformed
frame_delimited bytes field start pos (read l m) =
    if ltb (length bytes - (pos + m)) l
    then partial
    else framed
        (record { field = field; wire = 2; start = start; body_start = pos + m; end = pos + m + l })

abbrev pub frame_varint : ℕ → ℕ → ℕ → Uvarint → Framed
frame_varint field start pos short = partial
frame_varint field start pos overflow = malformed
frame_varint field start pos (read v m) =
    framed (record { field = field; wire = 0; start = start; body_start = pos + m; end = pos + m })

abbrev pub frame_fixed : List ℕ → ℕ → ℕ → ℕ → ℕ → ℕ → Framed
frame_fixed bytes field wire start pos width =
    if ltb (length bytes - pos) width
    then partial
    else framed (record {
      field = field;
      wire = wire;
      start = start;
      body_start = pos + width;
      end = pos + width;
    })

unfoldable pub frame_after : List ℕ → ℕ → ℕ → ℕ → Framed
frame_after bytes key start pos =
    if key % 8 == 2
    then frame_delimited bytes (key / 8) start pos (read_uvarint (drop pos bytes))
    else if key % 8 == 0
    then frame_varint (key / 8) start pos (read_uvarint (drop pos bytes))
    else if key % 8 == 5
    then frame_fixed bytes (key / 8) 5 start pos 4
    else if key % 8 == 1
    then frame_fixed bytes (key / 8) 1 start pos 8
    else malformed

abbrev pub frame_key : List ℕ → ℕ → Uvarint → Framed
frame_key bytes pos short = partial
frame_key bytes pos overflow = malformed
frame_key bytes pos (read key n) = frame_after bytes key pos (pos + n)

unfoldable pub next_record : List ℕ → ℕ → Framed
unfolding frame_after
next_record bytes pos = frame_key bytes pos (read_uvarint (drop pos bytes))

-- `stuck` is no Go value: a loop ran out of rounds.
pub data Ranged (A : Type 0) : Type 0 where
  stuck refused : Ranged A
  ok : A → Ranged A

abbrev pub bind : {A B : Type 0} → Ranged A → (A → Ranged B) → Ranged B
bind stuck next = stuck
bind refused next = refused
bind (ok a) next = next a

abbrev pub visit_framed : {S : Type 0} → (Record → Ranged S) → Framed → Ranged S
visit_framed next partial = refused
visit_framed next malformed = refused
visit_framed next (framed r) = next r

-- The loop that FieldRanges has, and PayloadOffset three times: the records from pos on that begin
-- before stop.
unfoldable pub each_record :
    {S : Type 0} → ℕ → List ℕ → ℕ → (Record → S → Ranged S) → ℕ → S → Ranged S
each_record zero bytes stop visit pos s = stuck
each_record (suc rounds) bytes stop visit pos s =
    let more =
      visit_framed (λ r. bind (visit r s) (λ t. each_record rounds bytes stop visit r.end t))
        (next_record bytes pos) in
    if ltb pos stop then more else ok s

pub record Range : Type 0 where
  pub start : ℕ
  pub end : ℕ

-- A record of the field after the ranges so far: the last of them goes on, or a new one begins.
unfoldable pub extend : List Range → Record → List Range
extend [] r = record { start = r.start; end = r.end } ∷ []
extend (last ∷ []) r =
    if last.end == r.start
    then record { start = last.start; end = r.end } ∷ []
    else last ∷ record { start = r.start; end = r.end } ∷ []
extend (first ∷ second ∷ rest) r = first ∷ extend (second ∷ rest) r

abbrev pub range_visit : ℕ → Record → List Range → Ranged (List Range)
range_visit field r out = if not (r.field == field) then ok out else ok (extend out r)

unfoldable pub field_ranges : List ℕ → ℕ → Ranged (List Range)
unfolding each_record extend
field_ranges bytes field =
    each_record (suc (length bytes)) bytes (length bytes) (range_visit field) 0 []

-- ScanLeading: where it stops, with an error or not, and whether the run is over.
pub data Scan : Type 0 where
  scan_stuck : Scan
  scan_refused : ℕ → Scan
  scanned : ℕ → Bool → Scan

abbrev pub scan_framed : ℕ → ℕ → (ℕ → Scan) → Framed → Scan
scan_framed field pos next partial = scanned pos false
scan_framed field pos next malformed = scan_refused pos
scan_framed field pos next (framed r) =
    if not (r.wire == 2)
    then scan_refused pos
    else if not (r.field == field)
    then scanned pos true
    else next r.end

unfoldable pub scan_loop : ℕ → List ℕ → ℕ → ℕ → Scan
scan_loop zero bytes field pos = scan_stuck
scan_loop (suc rounds) bytes field pos =
    let more = scan_framed field pos (scan_loop rounds bytes field) (next_record bytes pos) in
    if ltb pos (length bytes) then more else scanned pos false

unfoldable pub scan_leading : List ℕ → ℕ → ℕ → Scan
unfolding scan_loop
scan_leading bytes field from = scan_loop (suc (length bytes)) bytes field from

-- The offset, the payload so far, and whether the byte is found. A negative n is none.
pub record Payload : Type 0 where
  pub offset : ℕ
  pub total : ℕ
  pub found : Bool

abbrev pub count_body : Option ℕ → ℕ → ℕ → Payload → Payload
count_body none start end p = record p { total = p.total + (end - start) }
count_body (some n) start end p =
    let size = end - start in
    if not p.found && leb p.total n && ltb n (p.total + size)
    then record { offset = start + n - p.total; total = p.total + size; found = true }
    else record p { total = p.total + size }

abbrev pub label_visit : Option ℕ → Record → Payload → Ranged Payload
label_visit n l p =
    if (l.field == 1) && (l.wire == 2) then ok (count_body n l.body_start l.end p) else ok p

abbrev pub element_visit : List ℕ → Option ℕ → Record → Payload → Ranged Payload
element_visit bytes n e p =
    if not (e.wire == 2)
    then ok p
    else if e.field == 1
    then each_record (suc (length bytes)) bytes e.end (label_visit n) e.body_start p
    else if e.field == 2
    then ok (count_body n e.body_start e.end p)
    else ok p

abbrev pub proof_visit : List ℕ → ℕ → Option ℕ → Record → Payload → Ranged Payload
proof_visit bytes field n r p =
    if not (r.field == field) || not (r.wire == 2)
    then ok p
    else each_record (suc (length bytes)) bytes r.end (element_visit bytes n) r.body_start p

unfoldable pub payload_offset : List ℕ → ℕ → Option ℕ → Ranged Payload
unfolding each_record
payload_offset bytes field n =
    each_record (suc (length bytes)) bytes (length bytes) (proof_visit bytes field n) 0
      (record { offset = 0; total = 0; found = false })
