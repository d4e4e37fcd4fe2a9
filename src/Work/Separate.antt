-- ===== src/Work/Separate.antt =====
-- Leases that share no epoch, and what keeps them so.
use kt_witness.Common.{
  ℕ, ◌+◌, ◌-◌, ◌≤◌, ◌<◌, ◌≡◌, refl, sym, subst, String, str_eq, true, false, ◌||◌, List, [], ◌∷◌,
  ◌++◌, All, ltb, leb, ◌==◌, Option, none, some, arith, Bool-cases, inl, inr, length,
}
use kt_witness.Store.Db.{Time}
use kt_witness.Work.Queue.{
  AssignmentId, same_id, Assignment, Result, Queue, covers, without, hand_out, release,
  reclaim_loop, reclaim, done, observe, max_attempts, value_of, put_id,
}
use kt_witness.Work.Results.{
  accept, reschedule, lookup, taken, measured, settled, cleared, add_epoch, seen_of,
}
use kt_witness.Work.Skipped.{is_leased}

-- Two leases of runs that the Source gave share no epoch; a retry is no such run.
pub Apart : Assignment → Assignment → Type 0
Apart a b =
    a.id.retry ≡ 0
    → b.id.retry ≡ 0
    → (e : ℕ) → covers a a.origin e ≡ true
    → covers b a.origin e ≡ false

unfoldable pub Separate : List Assignment → Type 0
Separate [] = Unit
Separate (a ∷ rest) = All (Apart a) rest × Separate rest

-- No two leases of fresh runs share an epoch, and what waits to be tried again is marked as a retry.
pub record IsSound (q : Queue) : Type 0 where
  pub separate : Separate q.leased
  pub retries : All (λ a. 0 < a.id.retry) q.retry

All-without :
    (P : Assignment → Type 0) (id : AssignmentId) (l : List Assignment)
    → All P l
    → All P (without id l)
All-without P id [] all = tt
All-without P id (a ∷ rest) (p, all) = elim (Bool-cases (same_id a.id id)) [
  | inl e ↦ simp e (All-without P id rest all)
  | inr e ↦ simp e (p, All-without P id rest all)
]

pub without-Separate :
    (id : AssignmentId) (l : List Assignment) → Separate l → Separate (without id l)
unfolding Separate
without-Separate id [] s = tt
without-Separate id (a ∷ rest) (p, s) = elim (Bool-cases (same_id a.id id)) [
  | inl e ↦ simp e (without-Separate id rest s)
  | inr e ↦ simp e (All-without (Apart a) id rest p, without-Separate id rest s)
]

-- A queue with the same leases, or fewer, and the same retries.
pub release-IsSound : (q : Queue) (a : Assignment) → IsSound q → IsSound (release q a)
unfolding release
release-IsSound q a s = record {
  separate = without-Separate a.id q.leased s.separate;
  retries = s.retries;
}

reclaim_loop-IsSound :
    (q : Queue) (now : Time) (l : List Assignment) → IsSound q → IsSound (reclaim_loop q now l)
unfolding reclaim_loop
reclaim_loop-IsSound q now [] s = s
reclaim_loop-IsSound q now (a ∷ rest) s = elim (Bool-cases (ltb a.deadline now)) [
  | inl e ↦ simp e (reclaim_loop-IsSound (release q a) now rest (release-IsSound q a s))
  | inr e ↦ simp e (reclaim_loop-IsSound q now rest s)
]

pub reclaim-IsSound : (q : Queue) (now : Time) → IsSound q → IsSound (reclaim q now)
unfolding reclaim
reclaim-IsSound q now s = reclaim_loop-IsSound q now q.leased s

-- A lease that shares no epoch with the others may be handed out.
pub hand_out-IsSound :
    (q : Queue) (a : Assignment) (worker nonce : String) (now : Time)
    → IsSound q
    → All (Apart a) q.leased
    → IsSound (hand_out q a worker nonce now).0
unfolding hand_out Separate Apart
hand_out-IsSound q a worker nonce now s apart = record {
  separate = (All-without (Apart a) a.id q.leased apart, without-Separate a.id q.leased s.separate);
  retries = s.retries;
}

pub retry-Apart : (a : Assignment) (l : List Assignment) → 0 < a.id.retry → All (Apart a) l
unfolding Apart
retry-Apart a [] h = tt
retry-Apart a (b ∷ rest) h = (λ k. absurd (omega arith), retry-Apart a rest h)

pub unleased-Apart :
    (a : Assignment) (l : List Assignment)
    → ((e : ℕ) → a.from ≤ e → e ≤ a.to → is_leased l a.origin e ≡ false)
    → All (Apart a) l
unfolding Apart
unleased-Apart a [] h = tt
unleased-Apart a (b ∷ rest) h = (
  λ k l e c. ground (arith, h e (ground arith) (ground arith)),
  unleased-Apart a rest (λ e k l. ground (arith, h e k l)),
)

-- Done gives a lease back.
pub done-IsSound : (q : Queue) (id : AssignmentId) → IsSound q → IsSound (done q id)
unfolding done
done-IsSound q id s = record {
  separate = without-Separate id q.leased s.separate;
  retries = s.retries;
}

pub IsSound-same :
    (q q' : Queue) → IsSound q → q'.leased ≡ q.leased → q'.retry ≡ q.retry → IsSound q'
IsSound-same q q' s e f = record {
  separate = subst Separate (sym e) s.separate;
  retries = subst (All (λ a. 0 < a.id.retry)) (sym f) s.retries;
}

measured-IsSound : (q : Queue) (r : Result) → IsSound q → IsSound (measured q r)
unfolding observe
measured-IsSound q r s = IsSound-same q (measured q r) s (ground arith) (ground arith)

settled-IsSound :
    (q : Queue) (a : Assignment) (r : Result) (seen : List ℕ)
    → IsSound q
    → IsSound (settled q a r seen)
settled-IsSound q a r seen s = elim (Bool-cases (length seen == a.to - a.from + 1)) [
  | inl e ↦
      simp e (record {
        separate = without-Separate r.assignment q.leased s.separate;
        retries = s.retries;
      })
  | inr e ↦ simp e s
]

cleared-IsSound : (q : Queue) (r : Result) → IsSound q → IsSound (cleared q r)
cleared-IsSound q r s = IsSound-same q (cleared q r) s (ground arith) (ground arith)

taken-IsSound : (q : Queue) (a : Assignment) (r : Result) → IsSound q → IsSound (taken q a r)
unfolding taken
taken-IsSound q a r s =
    let seen = add_epoch (seen_of (q.reported r.assignment)) r.epoch in
    let q' = record q { reported = put_id q.reported r.assignment (some seen) } in
    let s' : IsSound q' = record { separate = s.separate; retries = s.retries } in
    cleared-IsSound (settled (measured q' r) a r seen) r
      (settled-IsSound (measured q' r) a r seen (measured-IsSound q' r s'))

answered-IsSound :
    (q : Queue) (a : Assignment) (now : Time) (r : Result)
    → lookup q.leased r.assignment ≡ some a
    → IsSound q
    → IsSound (accept q now r).0
unfolding accept
answered-IsSound q a now r held s = elim (Bool-cases (str_eq a.nonce r.nonce)) [
  | inr n ↦ rw (accept, held) (simp n s)
  | inl n ↦ elim (Bool-cases (ltb a.deadline now)) [
    | inl late ↦ rw (accept, held) (simp (n, late) (release-IsSound q a s))
    | inr late ↦ elim (Bool-cases (ltb r.epoch a.from || ltb a.to r.epoch)) [
      | inl outside ↦ rw (accept, held) (simp (n, late, outside) s)
      | inr outside ↦ rw (accept, held) (simp (n, late, outside) (taken-IsSound q a r s))
    ]
  ]
]

-- Accept leaves the leases apart, whatever the result says.
pub accept-IsSound : (q : Queue) (now : Time) (r : Result) → IsSound q → IsSound (accept q now r).0
unfolding accept
accept-IsSound q now r s = cases (lookup q.leased r.assignment) refl
  where
    cases :
        (found : Option Assignment)
        → lookup q.leased r.assignment ≡ found
        → IsSound (accept q now r).0
    cases none e = rw (accept, e) s
    cases (some a) e = answered-IsSound q a now r e s

All-append-one :
    (P : Assignment → Type 0) (l : List Assignment) (a : Assignment)
    → All P l
    → P a
    → All P (l ++ a ∷ [])
All-append-one P [] a all p = (p, tt)
All-append-one P (b ∷ l) a (q, all) p = (q, All-append-one P l a all p)

pub reschedule-IsSound :
    (q : Queue) (now : Time) (origin : String) (epoch : ℕ)
    → IsSound q
    → IsSound (reschedule q now origin epoch).0
unfolding reschedule
reschedule-IsSound q now origin epoch s =
    elim (Bool-cases (leb max_attempts (value_of (q.attempts origin epoch) + 1))) [
      | inl e ↦ simp e (record { separate = s.separate; retries = s.retries })
      | inr e ↦ simp e (record {
        separate = s.separate;
        retries = All-append-one (λ a. 0 < a.id.retry) q.retry _ s.retries (omega arith);
      })
    ]
