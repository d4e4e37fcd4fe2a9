-- ===== src/Work/Due.antt =====
-- The part of a run that serves no backoff, and what Lease may hand out of a run.
use kt_witness.Common.{
  ℕ, zero, suc, ◌+◌, ◌-◌, ◌≤◌, ◌<◌, ◌≡◌, refl, String, Bool, true, false, ◌==◌, Option, none, some,
  arith, Bool-cases, inl, inr,
}
use kt_witness.Store.Db.{Time}
use kt_witness.Work.Queue.{Queue}
use kt_witness.Work.Trim.{Trimmed, is_deferred, first_due, first_deferred, cut, trim_deferred}
use kt_witness.Work.Lease.{check_run}
use kt_witness.Work.Skipped.{is_leased}
use kt_witness.Work.Trimmed.{trim_leased-IsTrimmed}

module _ (q : Queue) (origin : String) (now : Time) where
  first_due-forward : (n from : ℕ) → from ≤ first_due q origin now n from
  unfolding first_due
  first_due-forward zero from = omega arith
  first_due-forward (suc n) from = ground (arith, first_due-forward n (from + 1))

  first_due-due :
      (n from : ℕ)
      → first_due q origin now n from < from + n
      → is_deferred q origin now (first_due q origin now n from) ≡ false
  unfolding first_due
  first_due-due zero from h = absurd (omega arith)
  first_due-due (suc n) from h = elim (Bool-cases (is_deferred q origin now from)) [
    | inl d ↦
        let h' : first_due q origin now n (from + 1) < from + suc n = simp d at h in
        simp d (first_due-due n (from + 1) (omega arith))
    | inr d ↦ simp d refl
  ]

  -- What the second loop finds over n epochs.
  Finds : ℕ → ℕ → Option ℕ → Type 0
  Finds n from none = (e : ℕ) → from ≤ e → e < from + n → is_deferred q origin now e ≡ false
  Finds n from (some stop) =
      (from ≤ stop)
      × (stop < from + n)
      × (is_deferred q origin now stop ≡ true)
      × ((e : ℕ) → from ≤ e → e < stop → is_deferred q origin now e ≡ false)

  Finds-later :
      (n from : ℕ) (r : Option ℕ)
      → is_deferred q origin now from ≡ false
      → Finds n (from + 1) r
      → Finds (suc n) from r
  unfolding Finds
  Finds-later n from none d f = λ e h k. elim (Bool-cases (e == from)) [
    | inl b ↦ let same : e ≡ from = ground arith in rw same d
    | inr b ↦ f e (ground arith) (omega arith)
  ]
  Finds-later n from (some stop) d (after, before, deferred, f) = (
    omega arith,
    omega arith,
    deferred,
    λ e h k. elim (Bool-cases (e == from)) [
      | inl b ↦ let same : e ≡ from = ground arith in rw same d
      | inr b ↦ f e (ground arith) k
    ],
  )

  first_deferred-Finds : (n from : ℕ) → Finds n from (first_deferred q origin now n from)
  unfolding first_deferred Finds
  first_deferred-Finds zero from = λ e h k. absurd (omega arith)
  first_deferred-Finds (suc n) from = elim (Bool-cases (is_deferred q origin now from)) [
    | inl d ↦ simp d (omega arith, omega arith, refl, λ e h k. absurd (omega arith))
    | inr d ↦ simp d (Finds-later n from _ d (first_deferred-Finds n (from + 1)))
  ]

  -- A part of a run that serves no backoff.
  record IsDue (from to : ℕ) (r : ℕ × ℕ × Bool) : Type 0 where
    forward : r.2 ≡ true → from ≤ r.0
    nonempty : r.2 ≡ true → r.0 ≤ r.1
    within : r.2 ≡ true → r.1 ≤ to
    due : r.2 ≡ true → (e : ℕ) → r.0 ≤ e → e ≤ r.1 → is_deferred q origin now e ≡ false

  cut-IsDue :
      (from start to : ℕ) (r : Option ℕ)
      → from ≤ start
      → (start ≤ to → is_deferred q origin now start ≡ false)
      → Finds (to + 1 - start) start r
      → IsDue from to (cut start to r)
  unfolding Finds
  cut-IsDue from start to none h d f = record {
    forward = λ k. h;
    nonempty = λ k. ground arith;
    within = λ k. omega arith;
    due = λ k e l m. f e l (ground arith);
  }
  cut-IsDue from start to (some stop) h d (after, before, deferred, f) =
      let first = d (omega arith) in
      let later : start < stop = elim (Bool-cases (start == stop)) [
        | inl b ↦
            let same : start ≡ stop = ground arith in absurd (ground (arith, rw same at first))
        | inr b ↦ ground arith
      ] in
      record {
        forward = λ k. h;
        nonempty = λ k. ground arith;
        within = λ k. omega arith;
        due = λ k e l m. f e l (omega arith);
      }

  trim_deferred-IsDue : (from to : ℕ) → IsDue from to (trim_deferred q origin from to now)
  unfolding trim_deferred
  trim_deferred-IsDue from to =
      let start = first_due q origin now (to + 1 - from) from in
      cut-IsDue from start to _ (first_due-forward (to + 1 - from) from)
        (λ h.
          first_due-due (to + 1 - from) from
            (omega (arith, first_due-forward (to + 1 - from) from)))
        (first_deferred-Finds (to + 1 - start) start)

  -- What both checks leave of a run.
  pub record MayLease (from to : ℕ) (r : Trimmed) : Type 0 where
    pub forward : from ≤ r.from
    pub nonempty : r.from ≤ r.to
    pub within : r.to ≤ to
    pub unleased : (e : ℕ) → r.from ≤ e → e ≤ r.to → is_leased q.leased origin e ≡ false
    pub due : (e : ℕ) → r.from ≤ e → e ≤ r.to → is_deferred q origin now e ≡ false

  -- The checks of a run always end. A part that they leave free is a part of the run that is not empty
  -- and has no epoch that is out on a lease or serves a backoff.
  pub check_run-MayLease :
      (from to : ℕ)
      → (r : Trimmed) × (check_run q origin from to now ≡ some r)
        × (r.free ≡ true → MayLease from to r)
  unfolding check_run
  check_run-MayLease from to =
      let (r, run, t) = trim_leased-IsTrimmed q.leased origin from to in
      let d = trim_deferred q origin r.from r.to now in
      let due = trim_deferred-IsDue r.from r.to in
      elim (Bool-cases r.free) [
        | inl free ↦ (
          record r { from = d.0; to = d.1; free = d.2 },
          rw (check_run, run) (simp free refl),
          λ h.
              let a = t.forward free in
              let b = due.forward h in
              let c = due.within h in
              let e = t.within free in
              record {
                forward = omega arith;
                nonempty = due.nonempty h;
                within = omega arith;
                unleased = λ x k l. t.clear free x (omega arith) (omega arith);
                due = due.due h;
              },
        )
        | inr free ↦ (r, rw (check_run, run) (simp free refl), λ h. absurd (ground arith))
      ]
