-- ===== src/Akd/Scanning.antt =====
-- ScanLeading of internal/akdtree/ranges.go, called again with more of the proof.
use kt_witness.Common.{
  ℕ, zero, suc, ◌-◌, ◌<◌, ◌≡◌, refl, ap, sym, subst, ◌∙◌, inl, inr, arith, Bool, true, false,
  Bool-cases, not, List, ◌++◌, length, length-append, ltb, ◌==◌, if◌then◌else◌,
}
use kt_witness.Akd.Ranges.{
  Record, Framed, partial, malformed, framed, next_record, Scan, scan_stuck, scan_refused, scanned,
  scan_framed, scan_loop, scan_leading,
}
use kt_witness.Akd.Framing.{Stable, next_record-Stable}
use kt_witness.Akd.Within.{Within, next_record-Within}

-- Enough rounds give what more rounds give.
scan_rounds :
    (rounds more : ℕ) (bytes : List ℕ) (field pos : ℕ)
    → length bytes - pos < rounds
    → length bytes - pos < more
    → scan_loop rounds bytes field pos ≡ scan_loop more bytes field pos
unfolding scan_loop
scan_rounds zero more bytes field pos h k = absurd (omega arith)
scan_rounds (suc rounds) zero bytes field pos h k = absurd (omega arith)
scan_rounds (suc rounds) (suc more) bytes field pos h k =
    elim (Bool-cases (ltb pos (length bytes))) [
      | inl b ↦ simp b (
          next (next_record bytes pos) (next_record-Within bytes pos) b
            (λ p. scan_rounds rounds more bytes field p))
      | inr b ↦ simp b refl
    ]
  where
    same :
        (test other : Bool) (s : Scan) (x y : Scan)
        → x ≡ y
        → (if test then s else if other then scanned pos true else x)
          ≡ (if test then s else if other then scanned pos true else y)
    same test other s x y e = ap (λ z. if test then s else if other then scanned pos true else z) e

    next :
        (f : Framed)
        → Within bytes pos f
        → ltb pos (length bytes) ≡ true
        → ((p : ℕ)
            → length bytes - p < rounds
            → length bytes - p < more
            → scan_loop rounds bytes field p ≡ scan_loop more bytes field p)
        → scan_framed field pos (scan_loop rounds bytes field) f
          ≡ scan_framed field pos (scan_loop more bytes field) f
    next partial w b ih = refl
    next malformed w b ih = refl
    next (framed r) w b ih =
        let inside : pos < length bytes = ground (arith, b) in
        same (not (r.wire == 2)) (not (r.field == field)) (scan_refused pos) _ _
          (ih r.end (omega (arith, w, inside, h)) (omega (arith, w, inside, k)))

-- What a scan says of the scan of more bytes.
abbrev pub Resumes : List ℕ → ℕ → ℕ → Scan → Type 0
Resumes bytes field from scan_stuck = zero ≡ suc zero
Resumes bytes field from (scan_refused e) = scan_leading bytes field from ≡ scan_refused e
Resumes bytes field from (scanned e true) = scan_leading bytes field from ≡ scanned e true
Resumes bytes field from (scanned e false) =
    scan_leading bytes field from ≡ scan_leading bytes field e

scan_step :
    (bytes : List ℕ) (field pos : ℕ)
    → scan_leading bytes field pos ≡ (
        if ltb pos (length bytes)
        then scan_framed field pos (scan_leading bytes field) (next_record bytes pos)
        else scanned pos false)
unfolding scan_leading scan_loop
scan_step bytes field pos = elim (Bool-cases (ltb pos (length bytes))) [
  | inl b ↦ simp b (next (next_record bytes pos) (next_record-Within bytes pos) b)
  | inr b ↦ simp b refl
]
  where
    next :
        (f : Framed)
        → Within bytes pos f
        → ltb pos (length bytes) ≡ true
        → scan_framed field pos (scan_loop (length bytes) bytes field) f
          ≡ scan_framed field pos (scan_loop (suc (length bytes)) bytes field) f
    next partial w b = refl
    next malformed w b = refl
    next (framed r) w b =
        let inside : pos < length bytes = ground (arith, b) in
        ap
          (λ s.
            if not (r.wire == 2)
            then scan_refused pos
            else if not (r.field == field)
            then scanned pos true
            else s)
          (scan_rounds (length bytes) (suc (length bytes)) bytes field r.end
            (omega (arith, w, inside)) (omega (arith, w, inside)))

Resumes-from :
    (bytes : List ℕ) (field p q : ℕ) (s : Scan)
    → scan_leading bytes field p ≡ scan_leading bytes field q
    → Resumes bytes field q s
    → Resumes bytes field p s
Resumes-from bytes field p q scan_stuck e h = h
Resumes-from bytes field p q (scan_refused n) e h = e ∙ h
Resumes-from bytes field p q (scanned n true) e h = e ∙ h
Resumes-from bytes field p q (scanned n false) e h = e ∙ h

-- One step on the longer bytes, where the record is the same.
framed_step :
    (bytes : List ℕ) (field pos : ℕ) (f : Framed)
    → pos < length bytes
    → next_record bytes pos ≡ f
    → scan_leading bytes field pos ≡ scan_framed field pos (scan_leading bytes field) f
framed_step bytes field pos f h e =
    let inside : ltb pos (length bytes) ≡ true = ground (arith, h) in
    scan_step bytes field pos
    ∙ ap
        (λ t.
          if t
          then scan_framed field pos (scan_leading bytes field) (next_record bytes pos)
          else scanned pos false)
        inside
    ∙ ap (λ g. scan_framed field pos (scan_leading bytes field) g) e

scan-Resumes :
    (rounds : ℕ) (bytes more : List ℕ) (field pos : ℕ)
    → length bytes - pos < rounds
    → Resumes (bytes ++ more) field pos (scan_leading bytes field pos)
scan-Resumes zero bytes more field pos h = absurd (omega arith)
scan-Resumes (suc rounds) bytes more field pos h =
    subst (Resumes (bytes ++ more) field pos) (sym (scan_step bytes field pos))
      (elim (Bool-cases (ltb pos (length bytes))) [
        | inl b ↦ simp b (
            next (next_record bytes pos) (next_record-Within bytes pos)
              (next_record-Stable bytes more pos) b (λ p. scan-Resumes rounds bytes more field p))
        | inr b ↦ simp b refl
      ])
  where
    split :
        (r : Record) (wire other : Bool)
        → scan_leading (bytes ++ more) field pos ≡ (
            if wire
            then scan_refused pos
            else if other
            then scanned pos true
            else scan_leading (bytes ++ more) field r.end)
        → Resumes (bytes ++ more) field r.end (scan_leading bytes field r.end)
        → Resumes (bytes ++ more) field pos (
            if wire
            then scan_refused pos
            else if other
            then scanned pos true
            else scan_leading bytes field r.end)
    split r true other e ih = e
    split r false true e ih = e
    split r false false e ih = Resumes-from (bytes ++ more) field pos r.end _ e ih

    next :
        (f : Framed)
        → Within bytes pos f
        → Stable f (next_record (bytes ++ more) pos)
        → ltb pos (length bytes) ≡ true
        → ((p : ℕ)
            → length bytes - p < rounds
            → Resumes (bytes ++ more) field p (scan_leading bytes field p))
        → Resumes (bytes ++ more) field pos (scan_framed field pos (scan_leading bytes field) f)
    next partial w s b ih = refl
    next malformed w s b ih =
        framed_step (bytes ++ more) field pos malformed
          (ground (arith, b, length-append bytes more)) s
    next (framed r) w s b ih =
        let inside : pos < length bytes = ground (arith, b) in
        split r (not (r.wire == 2)) (not (r.field == field))
          (framed_step (bytes ++ more) field pos (framed r)
            (omega (arith, inside, length-append bytes more)) s)
          (ih r.end (omega (arith, w, inside, h)))

-- ScanLeading comes to an end, and what it answers holds of the longer proof: an error or the end of the
-- run is the answer there too, and where it asks for more, going on from where it stopped gives what
-- the scan of the longer proof gives from the position before.
pub scan_leading-Resumes :
    (bytes more : List ℕ) (field from : ℕ)
    → Resumes (bytes ++ more) field from (scan_leading bytes field from)
scan_leading-Resumes bytes more field from =
    scan-Resumes (suc (length bytes)) bytes more field from (omega arith)
