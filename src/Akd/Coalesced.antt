-- ===== src/Akd/Coalesced.antt =====
-- FieldRanges of internal/akdtree/ranges.go.
use kt_witness.Common.{
  ℕ, suc, ◌≤◌, ◌<◌, ◌≡◌, refl, inl, inr, arith, Bool-cases, not, List, [], ◌∷◌, length, ◌==◌,
}
use kt_witness.Akd.Ranges.{Record, framed, each_record, Range, extend, range_visit, field_ranges}
use kt_witness.Akd.Within.{Within}
use kt_witness.Akd.Visits.{Finds, Finds-if, each_record-Finds, weaker}

-- Ranges in order, none empty, with a gap between any two, and none past n.
unfoldable pub IsCoalesced : ℕ → List Range → Type 0
IsCoalesced n [] = Unit
IsCoalesced n (r ∷ []) = (r.start < r.end) × (r.end ≤ n)
IsCoalesced n (r ∷ s ∷ rest) = (r.start < r.end) × (r.end < s.start) × IsCoalesced n (s ∷ rest)

IsCoalesced-more : (n m : ℕ) (out : List Range) → n ≤ m → IsCoalesced n out → IsCoalesced m out
unfolding IsCoalesced
IsCoalesced-more n m [] h c = tt
IsCoalesced-more n m (r ∷ []) h (a, b) = (a, omega (arith, b, h))
IsCoalesced-more n m (r ∷ s ∷ rest) h (a, b, c) = (a, b, IsCoalesced-more n m (s ∷ rest) h c)

-- The first range of the list begins where it did.
first_start : List Range → ℕ → ℕ
first_start [] n = n
first_start (r ∷ rest) n = r.start

extend-first :
    (last : Range) (rest : List Range) (r : Record) (n : ℕ)
    → first_start (extend (last ∷ rest) r) n ≡ last.start
unfolding extend first_start
extend-first last [] r n = elim (Bool-cases (last.end == r.start)) [
  | inl b ↦ simp b refl
  | inr b ↦ simp b refl
]
extend-first last (s ∷ rest) r n = refl

extend-IsCoalesced :
    (n : ℕ) (out : List Range) (r : Record)
    → n ≤ r.start
    → r.start < r.end
    → IsCoalesced n out
    → IsCoalesced r.end (extend out r)
unfolding extend IsCoalesced first_start
extend-IsCoalesced n [] r h k c = (k, omega arith)
extend-IsCoalesced n (last ∷ []) r h k (a, b) = elim (Bool-cases (last.end == r.start)) [
  | inl e ↦ simp e (omega (arith, a, b, h, k), omega arith)
  | inr e ↦
      let gap : last.end < r.start = ground (arith, b, h, e) in simp e (a, gap, (k, omega arith))
]
extend-IsCoalesced n (first ∷ second ∷ rest) r h k (a, b, c) =
    linked first (extend (second ∷ rest) r) second.start r.end a b (extend-first second rest r 0)
      (extend-IsCoalesced n (second ∷ rest) r h k c)
  where
    linked :
        (f : Range) (l : List Range) (s m : ℕ)
        → f.start < f.end
        → f.end < s
        → first_start l 0 ≡ s
        → IsCoalesced m l
        → IsCoalesced m (f ∷ l)
    linked f [] s m a b e c = absurd (omega (arith, e, b))
    linked f (g ∷ l) s m a b e c = (a, omega (arith, b, e), c)

-- FieldRanges comes to an end, and its ranges are in order and within the data, none is empty, and
-- those that meet are joined: there is a gap between any two.
pub field_ranges-IsCoalesced :
    (bytes : List ℕ) (field : ℕ) → Finds (IsCoalesced (length bytes)) (field_ranges bytes field)
unfolding field_ranges IsCoalesced
field_ranges-IsCoalesced bytes field =
    weaker _ (IsCoalesced (length bytes))
      (each_record (suc (length bytes)) bytes (length bytes) (range_visit field) 0 [])
      (λ out found. IsCoalesced-more found.0 (length bytes) out found.1 found.2)
      (each_record-Finds bytes (length bytes) (range_visit field) IsCoalesced visited
        (suc (length bytes)) 0 [] (omega arith) (omega arith) tt)
  where
    visited :
        (pos : ℕ) (r : Record) (out : List Range)
        → Within bytes pos (framed r)
        → IsCoalesced pos out
        → Finds (IsCoalesced r.end) (range_visit field r out)
    visited pos r out w c =
        Finds-if (IsCoalesced r.end) (not (r.field == field)) _ _
          (λ b. IsCoalesced-more pos r.end out (omega (arith, w)) c)
          (λ b. extend-IsCoalesced pos out r (omega (arith, w)) (omega (arith, w)) c)
