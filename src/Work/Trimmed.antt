-- ===== src/Work/Trimmed.antt =====
-- The part of a run that trimLeasedLocked and trimDeferredLocked leave.
use kt_witness.Common.{
  ℕ, ◌+◌, ◌-◌, ◌≤◌, ◌<◌, ◌≡◌, refl, String, str_eq, Bool, true, false, ◌&&◌, List, [], ◌∷◌, length,
  ltb, leb, some, arith, Bool-cases, inl, inr,
}
use kt_witness.Work.Queue.{Assignment}
use kt_witness.Work.Trim.{skip_leased, stop_before, Trimmed, trim_leased}
use kt_witness.Work.Skipped.{is_leased, alive-length, IsSkipped, skip_leased-IsSkipped}

record IsStop (l : List Assignment) (origin : String) (from to t : ℕ) : Type 0 where
  within : t ≤ to
  starts : from ≤ to → from ≤ t
  clear :
      is_leased l origin from ≡ false → (e : ℕ) → from ≤ e → e ≤ t → is_leased l origin e ≡ false

stop_before-IsStop :
    (l : List Assignment) (origin : String) (from to : ℕ)
    → IsStop l origin from to (stop_before l origin from to)
unfolding stop_before
stop_before-IsStop [] origin from to = record {
  within = omega arith;
  starts = λ h. h;
  clear = λ h e k m. refl;
}
stop_before-IsStop (a ∷ rest) origin from to =
    elim (Bool-cases (str_eq a.origin origin && ltb from a.from && leb a.from to)) [
      | inl c ↦
          let ih = stop_before-IsStop rest origin from (a.from - 1) in
          let short = ih.within in
          simp c (record {
            within = ground arith;
            starts = λ h. ih.starts (ground arith);
            clear = λ h e k m. ground (arith, ih.clear (ground arith) e k m);
          })
      | inr c ↦
          let ih = stop_before-IsStop rest origin from to in
          let short = ih.within in
          simp c (record {
            within = short;
            starts = ih.starts;
            clear = λ h e k m. ground (arith, ih.clear (ground arith) e k m);
          })
    ]

-- A run cut to the part that nobody has on a lease.
pub record IsTrimmed (l : List Assignment) (origin : String) (from to : ℕ) (r : Trimmed)
    : Type 0 where
  pub forward : r.free ≡ true → from ≤ r.from
  pub nonempty : r.free ≡ true → r.from ≤ r.to
  pub within : r.free ≡ true → r.to ≤ to
  pub resumes : r.free ≡ true → r.next ≡ r.to + 1
  pub clear : r.free ≡ true → (e : ℕ) → r.from ≤ e → e ≤ r.to → is_leased l origin e ≡ false
  pub skipped : r.free ≡ true → (e : ℕ) → from ≤ e → e < r.from → is_leased l origin e ≡ true
  pub busy :
      r.free ≡ false
      → (to < r.next) × ((e : ℕ) → from ≤ e → e < r.next → is_leased l origin e ≡ true)

-- trimLeasedLocked ends. What it leaves of a run is a run from the first epoch that is not out on a
-- lease, with no epoch that is, and where nothing is left every epoch of the run is out on a lease.
pub trim_leased-IsTrimmed :
    (l : List Assignment) (origin : String) (from to : ℕ)
    → (r : Trimmed) × (trim_leased l origin from to ≡ some r) × IsTrimmed l origin from to r
unfolding trim_leased
trim_leased-IsTrimmed l origin from to =
    let (r, run, s) =
      skip_leased-IsSkipped (length l + 1) l origin from to (omega (arith, alive-length l from)) in
    split r run s
  where
    split :
        (r : ℕ × Bool)
        → skip_leased (length l + 1) l origin from to ≡ some r
        → IsSkipped l origin from to r
        → (t : Trimmed) × (trim_leased l origin from to ≡ some t) × IsTrimmed l origin from to t
    split (at, false) run s = (
      record { from = 0; to = 0; free = false; next = at },
      rw (trim_leased, run) refl,
      record {
        forward = λ h. absurd (ground arith);
        nonempty = λ h. absurd (ground arith);
        within = λ h. absurd (ground arith);
        resumes = λ h. absurd (ground arith);
        clear = λ h. absurd (ground arith);
        skipped = λ h. absurd (ground arith);
        busy = λ h. (s.past refl, s.skipped);
      },
    )
    split (at, true) run s =
        let stop = stop_before l origin at to in
        let t = stop_before-IsStop l origin at to in
        let starts : at ≤ stop = t.starts (s.inside refl) in
        (
          record { from = at; to = stop; free = leb at stop; next = stop + 1 },
          rw (trim_leased, run) refl,
          record {
            forward = λ h. s.forward;
            nonempty = λ h. starts;
            within = λ h. t.within;
            resumes = λ h. refl;
            clear = λ h. t.clear (s.clear refl);
            skipped = λ h. s.skipped;
            busy = λ h. absurd (ground arith);
          },
        )
