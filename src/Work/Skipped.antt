-- ===== src/Work/Skipped.antt =====
-- The first loop of trimLeasedLocked: it ends, and what it skips is out on a lease.
use kt_witness.Common.{
  ℕ, zero, suc, ◌+◌, ◌≤◌, ◌<◌, ◌≡◌, refl, sym, subst, String, Bool, true, false, ◌||◌, List, [],
  ◌∷◌, length, ltb, leb, if◌then◌else◌, some, arith, Bool-cases, inl, inr,
}
use kt_witness.Work.Queue.{Assignment, covers}
use kt_witness.Work.Trim.{skip_pass, skip_leased}

-- Whether an epoch is out on a lease.
abbrev pub is_leased : List Assignment → String → ℕ → Bool
is_leased [] origin epoch = false
is_leased (a ∷ rest) origin epoch = covers a origin epoch || is_leased rest origin epoch

-- How many leases end at this epoch or later.
abbrev pub alive : List Assignment → ℕ → ℕ
alive [] from = 0
alive (a ∷ rest) from = (if leb from a.to then 1 else 0) + alive rest from

alive_antitone : (l : List Assignment) (e f : ℕ) → e ≤ f → alive l f ≤ alive l e
alive_antitone [] e f h = omega arith
alive_antitone (a ∷ rest) e f h = ground (arith, alive_antitone rest e f h)

pub alive-length : (l : List Assignment) (e : ℕ) → alive l e ≤ length l
alive-length [] e = omega arith
alive-length (a ∷ rest) e = ground (arith, alive-length rest e)

-- What one pass does.
record IsPass (l : List Assignment) (origin : String) (from : ℕ) (moved : Bool) (r : ℕ × Bool)
    : Type 0 where
  forward : from ≤ r.0
  kept : moved ≡ true → r.1 ≡ true
  skipped : (e : ℕ) → from ≤ e → e < r.0 → is_leased l origin e ≡ true
  still : r.1 ≡ false → r.0 ≡ from
  clear : r.1 ≡ false → is_leased l origin from ≡ false
  fewer : moved ≡ false → r.1 ≡ true → alive l r.0 < alive l from

covers_from : (a : Assignment) (origin : String) (e : ℕ) → covers a origin e ≡ true → a.from ≤ e
covers_from a origin e h = ground arith

covers_to : (a : Assignment) (origin : String) (e : ℕ) → covers a origin e ≡ true → e ≤ a.to
covers_to a origin e h = ground arith

covers_between :
    (a : Assignment) (origin : String) (e f : ℕ)
    → covers a origin e ≡ true
    → e ≤ f
    → f ≤ a.to
    → covers a origin f ≡ true
covers_between a origin e f h k l = ground arith

IsPass-covered :
    (a : Assignment) (rest : List Assignment) (origin : String) (from : ℕ) (moved : Bool)
    (r : ℕ × Bool)
    → covers a origin from ≡ true
    → IsPass rest origin (a.to + 1) true r
    → IsPass (a ∷ rest) origin from moved r
IsPass-covered a rest origin from moved r c ih =
    let did : r.1 ≡ true = ih.kept refl in
    let ends = covers_to a origin from c in
    let after = ih.forward in
    record {
      forward = omega arith;
      kept = λ h. did;
      skipped = λ e h k. elim (Bool-cases (leb e a.to)) [
        | inl b ↦ simp (covers_between a origin from e c h (ground arith)) refl
        | inr b ↦ ground (arith, ih.skipped e (ground arith) k)
      ];
      still = λ h. absurd (ground arith);
      clear = λ h. absurd (ground arith);
      fewer = λ h k. ground (arith, alive_antitone rest from r.0 (omega arith));
    }

IsPass-free :
    (a : Assignment) (rest : List Assignment) (origin : String) (from : ℕ) (moved : Bool)
    (r : ℕ × Bool)
    → covers a origin from ≡ false
    → IsPass rest origin from moved r
    → IsPass (a ∷ rest) origin from moved r
IsPass-free a rest origin from moved r c ih =
    let after = ih.forward in
    record {
      forward = after;
      kept = ih.kept;
      skipped = λ e h k. ground (arith, ih.skipped e h k);
      still = ih.still;
      clear = λ h. rw (c, ih.clear h) refl;
      fewer = λ h k. ground (arith, ih.fewer h k);
    }

skip_pass-IsPass :
    (l : List Assignment) (origin : String) (from : ℕ) (moved : Bool)
    → IsPass l origin from moved (skip_pass l origin from moved)
unfolding skip_pass
skip_pass-IsPass [] origin from moved = record {
  forward = omega arith;
  kept = λ h. h;
  skipped = λ e h k. absurd (omega arith);
  still = λ h. refl;
  clear = λ h. refl;
  fewer = λ h k. absurd (ground arith);
}
skip_pass-IsPass (a ∷ rest) origin from moved = elim (Bool-cases (covers a origin from)) [
  | inl c ↦
      simp c
        (IsPass-covered a rest origin from moved _ c (skip_pass-IsPass rest origin (a.to + 1) true))
  | inr c ↦
      simp c (IsPass-free a rest origin from moved _ c (skip_pass-IsPass rest origin from moved))
]

-- What the loop leaves: the first epoch of the run that is not out on a lease, or one past the run.
pub record IsSkipped (l : List Assignment) (origin : String) (from to : ℕ) (r : ℕ × Bool)
    : Type 0 where
  pub forward : from ≤ r.0
  pub skipped : (e : ℕ) → from ≤ e → e < r.0 → is_leased l origin e ≡ true
  pub inside : r.1 ≡ true → r.0 ≤ to
  pub clear : r.1 ≡ true → is_leased l origin r.0 ≡ false
  pub past : r.1 ≡ false → to < r.0

-- One round more, after a pass that has moved the run.
IsSkipped-step :
    (l : List Assignment) (origin : String) (from mid to : ℕ) (r : ℕ × Bool)
    → from ≤ mid
    → ((e : ℕ) → from ≤ e → e < mid → is_leased l origin e ≡ true)
    → IsSkipped l origin mid to r
    → IsSkipped l origin from to r
IsSkipped-step l origin from mid to r h skipped s =
    let after = s.forward in
    record {
      forward = omega arith;
      skipped = λ e k m. elim (Bool-cases (ltb e mid)) [
        | inl b ↦ skipped e k (ground arith)
        | inr b ↦ s.skipped e (ground arith) m
      ];
      inside = s.inside;
      clear = s.clear;
      past = s.past;
    }

-- As many rounds are enough as there are leases that are still to come, and one more.
pub skip_leased-IsSkipped :
    (rounds : ℕ) (l : List Assignment) (origin : String) (from to : ℕ)
    → alive l from < rounds
    → (r : ℕ × Bool) × (skip_leased rounds l origin from to ≡ some r) × IsSkipped l origin from to r
unfolding skip_leased
skip_leased-IsSkipped zero l origin from to h = absurd (omega arith)
skip_leased-IsSkipped (suc rounds) l origin from to h =
    let p = skip_pass-IsPass l origin from false in
    let q = skip_pass l origin from false in
    let after = p.forward in
    elim (Bool-cases (ltb to q.0)) [
      | inl e ↦ (
        (q.0, false),
        simp e refl,
        record {
          forward = after;
          skipped = p.skipped;
          inside = λ k. absurd (ground arith);
          clear = λ k. absurd (ground arith);
          past = λ k. ground arith;
        },
      )
      | inr e ↦ elim (Bool-cases q.1) [
        | inl m ↦
            let less = p.fewer refl m in
            let (r, run, s) = skip_leased-IsSkipped rounds l origin q.0 to (omega arith) in
            (r, simp (e, m) run, IsSkipped-step l origin from q.0 to r after p.skipped s)
        | inr m ↦ (
          (q.0, true),
          simp (e, m) refl,
          record {
            forward = after;
            skipped = p.skipped;
            inside = λ k. ground arith;
            clear = λ k. subst (λ n. is_leased l origin n ≡ false) (sym (p.still m)) (p.clear m);
            past = λ k. absurd (ground arith);
          },
        )
      ]
    ]
