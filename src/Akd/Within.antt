-- ===== src/Akd/Within.antt =====
-- Where nextRecord of internal/akdtree/ranges.go finds a record.
use kt_witness.Common.{
  ℕ, ◌+◌, ◌-◌, ◌/◌, ◌%◌, ◌≤◌, ◌<◌, ◌≡◌, refl, arith, Bool, true, false, List, length, drop, ltb,
  ◌==◌, if◌then◌else◌,
}
use kt_witness.Akd.Decode.{Uvarint, short, overflow, read, read_uvarint}
use kt_witness.Akd.Walk.{length-drop, read_uvarint-read}
use kt_witness.Akd.Ranges.{
  Framed, partial, malformed, framed, frame_delimited, frame_varint, frame_fixed, frame_after,
  frame_key, next_record,
}

-- A record ends after it begins, within the bytes.
abbrev pub Within : List ℕ → ℕ → Framed → Type 0
Within bytes pos partial = Unit
Within bytes pos malformed = Unit
Within bytes pos (framed r) =
    (pos ≤ r.body_start)
    × (r.body_start ≤ r.end)
    × (pos < r.end)
    × (r.end ≤ length bytes)
    × (r.start ≡ pos)

Within-if :
    (bytes : List ℕ) (pos : ℕ) (test : Bool) (f g : Framed)
    → (test ≡ true → Within bytes pos f)
    → (test ≡ false → Within bytes pos g)
    → Within bytes pos (if test then f else g)
Within-if bytes pos true f g h k = h refl
Within-if bytes pos false f g h k = k refl

module _ (bytes : List ℕ) (field start pos : ℕ) (low : start < pos)
    (high : pos ≤ length bytes) where
  delimited-Within :
      (u : Uvarint)
      → ((v n : ℕ) → u ≡ read v n → (0 < n) × (n ≤ length (drop pos bytes)))
      → Within bytes start (frame_delimited bytes field start pos u)
  delimited-Within short h = tt
  delimited-Within overflow h = tt
  delimited-Within (read l m) h =
      let size = h l m refl in
      Within-if bytes start (ltb (length bytes - (pos + m)) l) _ _ (λ t. tt)
        (λ t.
          let fits : l ≤ length bytes - (pos + m) = ground (arith, t) in
          (
            omega (arith, low),
            omega arith,
            omega (arith, low),
            omega (arith, fits, size, length-drop pos bytes, high),
            refl,
          ))

  varint-Within :
      (u : Uvarint)
      → ((v n : ℕ) → u ≡ read v n → (0 < n) × (n ≤ length (drop pos bytes)))
      → Within bytes start (frame_varint field start pos u)
  varint-Within short h = tt
  varint-Within overflow h = tt
  varint-Within (read v m) h =
      let size = h v m refl in
      (
        omega (arith, low),
        omega arith,
        omega (arith, low),
        omega (arith, size, length-drop pos bytes, high),
        refl,
      )

  fixed-Within :
      (wire width : ℕ) → Within bytes start (frame_fixed bytes field wire start pos width)
  fixed-Within wire width =
      Within-if bytes start (ltb (length bytes - pos) width) _ _ (λ t. tt)
        (λ t.
          let fits : width ≤ length bytes - pos = ground (arith, t) in
          (omega (arith, low), omega arith, omega (arith, low), omega (arith, fits, high), refl))

frame_after-Within :
    (bytes : List ℕ) (key start pos : ℕ)
    → start < pos
    → pos ≤ length bytes
    → Within bytes start (frame_after bytes key start pos)
unfolding frame_after
frame_after-Within bytes key start pos low high =
    let size = read_uvarint-read (drop pos bytes) in
    Within-if bytes start (key % 8 == 2) _ _
      (λ t.
        delimited-Within bytes (key / 8) start pos low high (read_uvarint (drop pos bytes)) size)
      (λ t.
        Within-if bytes start (key % 8 == 0) _ _
          (λ t.
            varint-Within bytes (key / 8) start pos low high (read_uvarint (drop pos bytes)) size)
          (λ t.
            Within-if bytes start (key % 8 == 5) _ _
              (λ t. fixed-Within bytes (key / 8) start pos low high 5 4)
              (λ t.
                Within-if bytes start (key % 8 == 1) _ _
                  (λ t. fixed-Within bytes (key / 8) start pos low high 1 8) (λ t. tt))))

-- A record that nextRecord finds begins where it was looked for, and ends later and within the bytes.
pub next_record-Within : (bytes : List ℕ) (pos : ℕ) → Within bytes pos (next_record bytes pos)
unfolding next_record
next_record-Within bytes pos =
    of_key (read_uvarint (drop pos bytes)) (read_uvarint-read (drop pos bytes))
  where
    of_key :
        (u : Uvarint)
        → ((v n : ℕ) → u ≡ read v n → (0 < n) × (n ≤ length (drop pos bytes)))
        → Within bytes pos (frame_key bytes pos u)
    of_key short h = tt
    of_key overflow h = tt
    of_key (read key n) h =
        let size = h key n refl in
        frame_after-Within bytes key pos (pos + n) (omega (arith, size))
          (omega (arith, size, length-drop pos bytes))
