-- ===== src/Work/Answers.antt =====
-- Which results Accept of internal/work/work.go accepts, and what it then forgets.
use kt_witness.Common.{
  ◌≤◌, ◌≡◌, refl, ap, ◌∙◌, str_eq, str_eq_iff, ◌||◌, ltb, Option, none, some, arith, Bool-cases,
  inl, inr,
}
use kt_witness.Store.Db.{Time}
use kt_witness.Work.Queue.{Assignment, Result, Queue, observe}
use kt_witness.Work.Results.{
  bad_nonce, lease_expired, outside_range, unknown_id, accept, lookup, taken, cleared,
}

-- A lease that a result answers.
pub record Answers (q : Queue) (now : Time) (r : Result) (a : Assignment) : Type 0 where
  pub held : lookup q.leased r.assignment ≡ some a
  pub nonce : a.nonce ≡ r.nonce
  pub in_time : now ≤ a.deadline
  pub first : a.from ≤ r.epoch
  pub last : r.epoch ≤ a.to
  pub result : (accept q now r).0 ≡ taken q a r

answered :
    (q : Queue) (now : Time) (r : Result) (a : Assignment)
    → lookup q.leased r.assignment ≡ some a
    → (accept q now r).1 ≡ none
    → Answers q now r a
unfolding accept
answered q now r a held h = elim (Bool-cases (str_eq a.nonce r.nonce)) [
  | inr n ↦
      let run : (accept q now r).1 ≡ some bad_nonce = rw (accept, held) (simp n refl) in
      absurd (ground (arith, run, h))
  | inl n ↦ elim (Bool-cases (ltb a.deadline now)) [
    | inl late ↦
        let run : (accept q now r).1 ≡ some lease_expired =
          rw (accept, held) (simp (n, late) refl) in
        absurd (ground (arith, run, h))
    | inr late ↦ elim (Bool-cases (ltb r.epoch a.from || ltb a.to r.epoch)) [
      | inl outside ↦
          let run : (accept q now r).1 ≡ some outside_range =
            rw (accept, held) (simp (n, late, outside) refl) in
          absurd (ground (arith, run, h))
      | inr outside ↦ record {
        held = held;
        nonce = (str_eq_iff a.nonce r.nonce).0 n;
        in_time = ground arith;
        first = ground arith;
        last = ground arith;
        result = rw (accept, held) (simp (n, late, outside) refl);
      }
    ]
  ]
]

-- A result is accepted only where it answers a lease: with its id and its nonce, not after its
-- deadline, and with an epoch of its range.
pub accept-Answers :
    (q : Queue) (now : Time) (r : Result)
    → (accept q now r).1 ≡ none
    → (a : Assignment) × Answers q now r a
unfolding accept
accept-Answers q now r h = cases (lookup q.leased r.assignment) refl
  where
    cases :
        (found : Option Assignment)
        → lookup q.leased r.assignment ≡ found
        → (a : Assignment) × Answers q now r a
    cases none e =
        let run : (accept q now r).1 ≡ some unknown_id = rw (accept, e) refl in
        absurd (ground (arith, run, h))
    cases (some a) e = (a, answered q now r a e h)

cleared-attempts :
    (q : Queue) (r : Result) → r.err ≡ "" → (cleared q r).attempts r.origin r.epoch ≡ none
cleared-attempts q r h = ground (arith, str_eq_iff r.err "", str_eq_iff r.origin r.origin)

taken-deferred :
    (q : Queue) (a : Assignment) (r : Result)
    → r.err ≡ ""
    → (taken q a r).deferred r.origin r.epoch ≡ none
unfolding taken observe
taken-deferred q a r h = ground (arith, str_eq_iff r.err "", str_eq_iff r.origin r.origin)

-- A result that is accepted without an error clears the attempts and the backoff of the epoch and of
-- the origin that the result names, whichever origin was leased.
pub accept_clears :
    (q : Queue) (now : Time) (r : Result)
    → (accept q now r).1 ≡ none
    → r.err ≡ ""
    → ((accept q now r).0.attempts r.origin r.epoch ≡ none)
      × ((accept q now r).0.deferred r.origin r.epoch ≡ none)
unfolding taken
accept_clears q now r h e =
    let (a, answers) = accept-Answers q now r h in
    (
      ap (λ (p : Queue). p.attempts r.origin r.epoch) answers.result ∙ cleared-attempts _ r e,
      ap (λ (p : Queue). p.deferred r.origin r.epoch) answers.result ∙ taken-deferred q a r e,
    )
