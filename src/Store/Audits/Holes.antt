-- ===== src/Store/Audits/Holes.antt =====
-- Store.HolesDue: which holes are due, and in what order they are listed.
use kt_witness.Common.{
  ℕ, zero, suc, ◌+◌, ◌<◌, ◌≡◌, refl, ap, true, false, List, [], ◌∷◌, take, leb, arith,
  if◌then◌else◌, All, Bool-cases, inl, inr,
}
use kt_witness.Store.Db.{Time}
use kt_witness.Store.Audits.{Audit, AuditsInOrder, is_due, holes_loop, holes_due}

-- The epochs of all records that are due, in the order of the records.
abbrev pub due_epochs : ℕ → ℕ → Time → List Audit → List ℕ
due_epochs from to now [] = []
due_epochs from to now (a ∷ rest) =
    let more = due_epochs from to now rest in if is_due from to now a then a.epoch ∷ more else more

abbrev pub Ascending : List ℕ → Type 0
Ascending [] = Unit
Ascending (x ∷ l) = All (λ y. x < y) l × Ascending l

module _ (from to : ℕ) (now : Time) where
  holes_loop-take :
      (limit found left : ℕ) (l : List Audit)
      → found + left ≡ limit
      → holes_loop from to now limit found l ≡ take left (due_epochs from to now l)
  unfolding holes_loop
  holes_loop-take limit found zero [] h = refl
  holes_loop-take limit found (suc left) [] h = refl
  holes_loop-take limit found zero (a ∷ l) h =
      let full : leb limit found ≡ true = ground arith in rw full refl
  holes_loop-take limit found (suc left) (a ∷ l) h =
      let room : leb limit found ≡ false = ground arith in
      elim (Bool-cases (is_due from to now a)) [
        | inl due ↦
            simp (room, due)
              (ap (λ r. a.epoch ∷ r) (holes_loop-take limit (found + 1) left l (omega arith)))
        | inr skipped ↦ simp (room, skipped) (holes_loop-take limit found (suc left) l h)
      ]

  due_epochs-above :
      (e : ℕ) (l : List Audit)
      → All (λ a. e < a.epoch) l
      → All (λ y. e < y) (due_epochs from to now l)
  due_epochs-above e [] all = tt
  due_epochs-above e (a ∷ l) (p, all) = elim (Bool-cases (is_due from to now a)) [
    | inl due ↦ simp due (p, due_epochs-above e l all)
    | inr skipped ↦ simp skipped (due_epochs-above e l all)
  ]

  due_epochs-Ascending : (l : List Audit) → AuditsInOrder l → Ascending (due_epochs from to now l)
  due_epochs-Ascending [] sorted = tt
  due_epochs-Ascending (a ∷ l) (above, sorted) = elim (Bool-cases (is_due from to now a)) [
    | inl due ↦ simp due (due_epochs-above a.epoch l above, due_epochs-Ascending l sorted)
    | inr skipped ↦ simp skipped (due_epochs-Ascending l sorted)
  ]

  All-take : (P : ℕ → Type 0) (n : ℕ) (l : List ℕ) → All P l → All P (take n l)
  All-take P zero l all = tt
  All-take P (suc n) [] all = tt
  All-take P (suc n) (x ∷ l) (p, all) = (p, All-take P n l all)

  take-Ascending : (n : ℕ) (l : List ℕ) → Ascending l → Ascending (take n l)
  take-Ascending zero l h = tt
  take-Ascending (suc n) [] h = tt
  take-Ascending (suc n) (x ∷ l) (above, h) =
      (All-take (λ y. x < y) n l above, take-Ascending n l h)

  -- Over records in the order of the keys, HolesDue lists the first due epochs, as many as the limit
  -- allows, and lists them by number, whenever they became eligible.
  pub holes_due-Ascending :
      (limit : ℕ) (audits : List Audit)
      → AuditsInOrder audits
      → (holes_due from to now limit audits ≡ take limit (due_epochs from to now audits))
        × Ascending (holes_due from to now limit audits)
  unfolding holes_due
  holes_due-Ascending limit audits sorted =
      let same = holes_loop-take limit 0 limit audits (omega arith) in
      (same, rw same (take-Ascending limit _ (due_epochs-Ascending audits sorted)))
