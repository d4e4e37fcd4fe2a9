-- ===== src/Store/Audits/Unverified.antt =====
-- Store.FirstUnverified finds the least epoch that is not recorded as verified.
use kt_witness.Common.{
  ℕ, ◌+◌, ◌<◌, ◌≤◌, ◌≡◌, refl, sym, subst, ◌∙◌, true, false, Option, none, some, List, [], ◌∷◌, ltb,
  leb, ◌==◌, ==_iff, arith, if◌then◌else◌, All, Bool-cases, inl, inr,
}
use kt_witness.Store.Audits.{
  Audit, AuditsInOrder, verified_at, seek, unverified_loop, first_unverified,
}

-- What the answer says of the epochs of a range.
abbrev pub IsFirstUnverified : ℕ → ℕ → List Audit → Option ℕ → Type 0
IsFirstUnverified from to audits none = (e : ℕ) → from ≤ e → e ≤ to → verified_at e audits ≡ true
IsFirstUnverified from to audits (some at) =
    (from ≤ at)
    × (at ≤ to)
    × (verified_at at audits ≡ false)
    × ((e : ℕ) → from ≤ e → e < at → verified_at e audits ≡ true)

All-imp : {P Q : Audit → Type 0} (l : List Audit) → ((a : Audit) → P a → Q a) → All P l → All Q l
All-imp [] f all = tt
All-imp (a ∷ l) f (p, all) = (f a p, All-imp l f all)

verified_at-below : (e : ℕ) (l : List Audit) → All (λ a. e < a.epoch) l → verified_at e l ≡ false
unfolding verified_at
verified_at-below e [] all = refl
verified_at-below e (a ∷ l) (p, all) = ground (arith, verified_at-below e l all)

verified_at-other :
    (e : ℕ) (a : Audit) (l : List Audit) → a.epoch < e → verified_at e (a ∷ l) ≡ verified_at e l
unfolding verified_at
verified_at-other e a l h = ground arith

verified_at-first :
    (a : Audit) (l : List Audit) → a.verified ≡ true → verified_at a.epoch (a ∷ l) ≡ true
unfolding verified_at
verified_at-first a l v = ground arith

verified_at-unverified :
    (a : Audit) (l : List Audit)
    → a.verified ≡ false
    → All (λ b. a.epoch < b.epoch) l
    → verified_at a.epoch (a ∷ l) ≡ false
unfolding verified_at
verified_at-unverified a l v all = ground (arith, verified_at-below a.epoch l all)

-- An answer that stands where the loop is: nothing at or below it is recorded.
here :
    (to want : ℕ) (l : List Audit)
    → want ≤ to
    → verified_at want l ≡ false
    → IsFirstUnverified want to l (some want)
here to want l h v = (omega arith, h, v, λ e p q. absurd (omega arith))

-- The first record is the wanted one, and is verified.
advanced :
    (to : ℕ) (a : Audit) (l : List Audit) (r : Option ℕ)
    → a.verified ≡ true
    → IsFirstUnverified (a.epoch + 1) to l r
    → IsFirstUnverified a.epoch to (a ∷ l) r
advanced to a l none v h = λ e p q. elim (Bool-cases (a.epoch == e)) [
  | inl same ↦ rw (sym ((==_iff a.epoch e).0 same)) (verified_at-first a l v)
  | inr other ↦ rw (verified_at-other e a l (ground arith)) (h e (ground arith) q)
]
advanced to a l (some at) v (p, q, u, below) = (
  omega arith,
  q,
  verified_at-other at a l (omega arith) ∙ u,
  λ e p' q'. elim (Bool-cases (a.epoch == e)) [
    | inl same ↦ rw (sym ((==_iff a.epoch e).0 same)) (verified_at-first a l v)
    | inr other ↦ rw (verified_at-other e a l (ground arith)) (below e (ground arith) q')
  ],
)

ended :
    (to want : ℕ) (l : List Audit)
    → All (λ a. want < a.epoch) l
    → IsFirstUnverified want to l (if leb want to then some want else none)
ended to want l all = elim (Bool-cases (leb want to)) [
  | inl within ↦ rw within (here to want l (ground arith) (verified_at-below want l all))
  | inr past ↦ rw past (λ e p q. absurd (ground arith))
]

unverified_loop-IsFirstUnverified :
    (to want : ℕ) (l : List Audit)
    → AuditsInOrder l
    → All (λ a. want ≤ a.epoch) l
    → IsFirstUnverified want to l (unverified_loop to want l)
unfolding unverified_loop
unverified_loop-IsFirstUnverified to want [] sorted all = ended to want [] tt
unverified_loop-IsFirstUnverified to want (a ∷ l) (above, sorted) (p, all) =
    let ih =
      unverified_loop-IsFirstUnverified to (a.epoch + 1) l sorted
        (All-imp {P = λ b. a.epoch < b.epoch} l (λ b q. omega arith) above) in
    elim (Bool-cases (ltb want a.epoch)) [
      | inl gap ↦
          let later : All (λ b. want < b.epoch) (a ∷ l) =
            (ground arith, All-imp {P = λ b. a.epoch < b.epoch} l (λ b q. ground arith) above) in
          elim (Bool-cases (ltb to a.epoch)) [
            | inl past ↦ rw past (ended to want (a ∷ l) later)
            | inr within ↦
                rw (within, gap)
                  (here to want (a ∷ l) (ground arith) (verified_at-below want (a ∷ l) later))
          ]
      | inr reached ↦
          let at : a.epoch ≡ want = ground arith in
          let hit : (a.epoch == want) ≡ true = (==_iff a.epoch want).1 at in
          elim (Bool-cases (ltb to a.epoch)) [
            | inl past ↦
                let none_left : leb want to ≡ false = ground arith in
                rw (past, none_left) (λ e p' q. absurd (ground arith))
            | inr within ↦
                rw (within, reached, hit)
                  (elim (Bool-cases a.verified) [
                    | inl v ↦ simp v (
                        subst (λ w. IsFirstUnverified w to (a ∷ l) (unverified_loop to (w + 1) l))
                          at (advanced to a l _ v ih))
                    | inr u ↦ simp u (
                        subst (λ w. IsFirstUnverified w to (a ∷ l) (some w)) at
                          (here to a.epoch (a ∷ l) (ground arith)
                            (verified_at-unverified a l u above)))
                  ])
          ]
    ]

seek-AuditsInOrder : (from : ℕ) (l : List Audit) → AuditsInOrder l → AuditsInOrder (seek from l)
unfolding seek
seek-AuditsInOrder from [] sorted = tt
seek-AuditsInOrder from (a ∷ l) (above, sorted) = elim (Bool-cases (ltb a.epoch from)) [
  | inl before ↦ rw before (seek-AuditsInOrder from l sorted)
  | inr after ↦ rw after (above, sorted)
]

seek-from : (from : ℕ) (l : List Audit) → AuditsInOrder l → All (λ a. from ≤ a.epoch) (seek from l)
unfolding seek
seek-from from [] sorted = tt
seek-from from (a ∷ l) (above, sorted) = elim (Bool-cases (ltb a.epoch from)) [
  | inl before ↦ rw before (seek-from from l sorted)
  | inr after ↦
      rw after (ground arith, All-imp {P = λ b. a.epoch < b.epoch} l (λ b q. ground arith) above)
]

-- Seek passes over no epoch from the one sought on.
verified_at-seek :
    (from e : ℕ) (l : List Audit) → from ≤ e → verified_at e (seek from l) ≡ verified_at e l
unfolding seek
verified_at-seek from e [] h = refl
verified_at-seek from e (a ∷ l) h = elim (Bool-cases (ltb a.epoch from)) [
  | inl before ↦
      rw before (verified_at-seek from e l h ∙ sym (verified_at-other e a l (ground arith)))
  | inr after ↦ rw after refl
]

IsFirstUnverified-seek :
    (from to : ℕ) (l : List Audit) (r : Option ℕ)
    → IsFirstUnverified from to (seek from l) r
    → IsFirstUnverified from to l r
IsFirstUnverified-seek from to l none h = λ e p q. sym (verified_at-seek from e l p) ∙ h e p q
IsFirstUnverified-seek from to l (some at) (p, q, u, below) = (
  p,
  q,
  sym (verified_at-seek from at l p) ∙ u,
  λ e p' q'. sym (verified_at-seek from e l p') ∙ below e p' q',
)

-- Over records in the order of the keys, the answer is the least epoch of the range that is not
-- recorded as verified; without an answer every epoch of the range is.
pub first_unverified-IsFirstUnverified :
    (from to : ℕ) (audits : List Audit)
    → AuditsInOrder audits
    → IsFirstUnverified from to audits (first_unverified from to audits)
unfolding first_unverified
first_unverified-IsFirstUnverified from to audits sorted = elim (Bool-cases (ltb to from)) [
  | inl empty ↦ rw empty (λ e p q. absurd (ground arith))
  | inr proper ↦ rw proper (
      IsFirstUnverified-seek from to audits _ (
        unverified_loop-IsFirstUnverified to from (seek from audits)
          (seek-AuditsInOrder from audits sorted) (seek-from from audits sorted)))
]
