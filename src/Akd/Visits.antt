-- ===== src/Akd/Visits.antt =====
-- The loop over records of internal/akdtree/ranges.go.
use kt_witness.Common.{
  ℕ, zero, suc, ◌+◌, ◌≤◌, ◌<◌, ◌≡◌, refl, arith, Bool, true, false, List, length, ltb,
  if◌then◌else◌,
}
use kt_witness.Akd.Ranges.{
  Record, Framed, partial, malformed, framed, next_record, Ranged, stuck, refused, ok, bind,
  visit_framed, each_record,
}
use kt_witness.Akd.Within.{Within, next_record-Within}

-- An error, or what is said of the value.
abbrev pub Finds : {A : Type 0} → (A → Type 0) → Ranged A → Type 0
Finds Q stuck = zero ≡ suc zero
Finds Q refused = Unit
Finds Q (ok a) = Q a

pub Finds-if :
    {A : Type 0} (Q : A → Type 0) (test : Bool) (d e : Ranged A)
    → (test ≡ true → Finds Q d)
    → (test ≡ false → Finds Q e)
    → Finds Q (if test then d else e)
Finds-if Q true d e h k = h refl
Finds-if Q false d e h k = k refl

-- The loop comes to an end, and keeps what each visit keeps of the position and the state.
pub each_record-Finds :
    {S : Type 0} (bytes : List ℕ) (stop : ℕ) (visit : Record → S → Ranged S) (I : ℕ → S → Type 0)
    → ((pos : ℕ) (r : Record) (s : S)
        → Within bytes pos (framed r)
        → I pos s
        → Finds (I r.end) (visit r s))
    → (rounds pos : ℕ) (s : S) → length bytes < pos + rounds
    → pos ≤ length bytes
    → I pos s
    → Finds (λ t. (n : ℕ) × (n ≤ length bytes) × I n t) (each_record rounds bytes stop visit pos s)
unfolding each_record
each_record-Finds {S} bytes stop visit I keeps zero pos s h k i = absurd (omega arith)
each_record-Finds {S} bytes stop visit I keeps (suc rounds) pos s h k i =
    Finds-if (λ t. (n : ℕ) × (n ≤ length bytes) × I n t) (ltb pos stop) _ _
      (λ b.
        next (next_record bytes pos) (next_record-Within bytes pos)
          (λ p t. each_record-Finds bytes stop visit I keeps rounds p t))
      (λ b. (pos, k, i))
  where
    go :
        (n : ℕ) (d : Ranged S) (rest : S → Ranged S)
        → Finds (I n) d
        → ((t : S) → I n t → Finds (λ u. (m : ℕ) × (m ≤ length bytes) × I m u) (rest t))
        → Finds (λ u. (m : ℕ) × (m ≤ length bytes) × I m u) (bind d rest)
    go n stuck rest h k = h
    go n refused rest h k = tt
    go n (ok t) rest h k = k t h

    next :
        (f : Framed)
        → Within bytes pos f
        → ((p : ℕ) (t : S)
            → length bytes < p + rounds
            → p ≤ length bytes
            → I p t
            → Finds
                (λ u. (m : ℕ) × (m ≤ length bytes) × I m u)
                (each_record rounds bytes stop visit p t))
        → Finds
            (λ u. (m : ℕ) × (m ≤ length bytes) × I m u)
            (visit_framed
              (λ r. bind (visit r s) (λ t. each_record rounds bytes stop visit r.end t))
              f)
    next partial w ih = tt
    next malformed w ih = tt
    next (framed r) w ih =
        go r.end (visit r s) _ (keeps pos r s w i)
          (λ t j. ih r.end t (omega (arith, w, h)) (omega (arith, w)) j)

pub weaker :
    {A : Type 0} (Q R : A → Type 0) (d : Ranged A) → ((a : A) → Q a → R a) → Finds Q d → Finds R d
weaker Q R stuck h k = k
weaker Q R refused h k = tt
weaker Q R (ok a) h k = h a k
