-- ===== src/Work/Backoff.antt =====
-- What Reschedule of internal/work/work.go does with an epoch that fails again and again.
use kt_witness.Common.{
  ℕ, ◌+◌, ◌*◌, ◌^◌, ◌-◌, ◌<◌, ◌≡◌, refl, ap, ==_iff, String, str_eq, str_eq_iff, Bool, true, false,
  leb, ◌==◌, none, some, [], ◌∷◌, ◌++◌, arith,
}
use kt_witness.Store.Db.{Time}
use kt_witness.Work.Queue.{Assignment, Queue, second, value_of, retry_base, give_up_for}
use kt_witness.Work.Results.{reschedule}

-- The list of retries has one entry more at its end: this epoch alone, not before a time.
abbrev pub PutBack : Queue → Queue → String → ℕ → Time → Type 0
PutBack before after origin epoch not_before =
    (a : Assignment) × (after.retry ≡ before.retry ++ (a ∷ []))
    × (a.origin ≡ origin)
    × (a.from ≡ epoch)
    × (a.to ≡ epoch)
    × (a.not_before ≡ not_before)

-- One failure, the n-th in a row.
record IsRequeued (q : Queue) (origin : String) (epoch : ℕ) (n wait : ℕ) (now : Time)
    (r : Queue × ℕ × Bool) : Type 0 where
  count : r.1 ≡ n
  again : r.2 ≡ true
  wait_until : r.0.deferred origin epoch ≡ some (now + wait)
  attempts : r.0.attempts origin epoch ≡ some n
  put_back : PutBack q r.0 origin epoch (now + wait)

reschedule-IsRequeued :
    (q : Queue) (origin : String) (epoch n : ℕ) (now : Time)
    → value_of (q.attempts origin epoch) ≡ n
    → n < 2
    → IsRequeued q origin epoch (n + 1) (retry_base * 2 ^ n) now (reschedule q now origin epoch)
unfolding reschedule
reschedule-IsRequeued q origin epoch n now h small =
    let same : str_eq origin origin ≡ true = (str_eq_iff origin origin).1 refl in
    let here : (epoch == epoch) ≡ true = (==_iff epoch epoch).1 refl in
    let few : leb 3 (value_of (q.attempts origin epoch) + 1) ≡ false = ground arith in
    let power : value_of (q.attempts origin epoch) + 1 - 1 ≡ n = omega (arith, h) in
    simp few (record {
      count = ap (λ k. k + 1) h;
      again = refl;
      wait_until = simp (same, here) (ap (λ k. some (now + retry_base * 2 ^ k)) power);
      attempts = simp (same, here) (ap (λ k. some (k + 1)) h);
      put_back = (_, refl, refl, refl, refl, ap (λ k. now + retry_base * 2 ^ k) power);
    })

record IsDropped (q : Queue) (origin : String) (epoch : ℕ) (now : Time) (r : Queue × ℕ × Bool)
    : Type 0 where
  count : r.1 ≡ 3
  again : r.2 ≡ false
  wait_until : r.0.deferred origin epoch ≡ some (now + give_up_for)
  attempts : r.0.attempts origin epoch ≡ none
  retries : r.0.retry ≡ q.retry

reschedule-IsDropped :
    (q : Queue) (origin : String) (epoch : ℕ) (now : Time)
    → value_of (q.attempts origin epoch) ≡ 2
    → IsDropped q origin epoch now (reschedule q now origin epoch)
unfolding reschedule
reschedule-IsDropped q origin epoch now h =
    let same : str_eq origin origin ≡ true = (str_eq_iff origin origin).1 refl in
    let here : (epoch == epoch) ≡ true = (==_iff epoch epoch).1 refl in
    let many : leb 3 (value_of (q.attempts origin epoch) + 1) ≡ true = ground arith in
    simp many (record {
      count = ap (λ k. k + 1) h;
      again = refl;
      wait_until = simp (same, here) refl;
      attempts = simp (same, here) refl;
      retries = refl;
    })

-- An epoch that has not failed before is put back twice, at the end of the retries as a range of its
-- own, held back for a minute and then for two; the third failure in a row is the last: the epoch is not
-- put back, its count is dropped, and it is left alone for a day.
pub reschedule_gives_up :
    (q : Queue) (origin : String) (epoch : ℕ) (t1 t2 t3 : Time)
    → q.attempts origin epoch ≡ none
    → let first = reschedule q t1 origin epoch in
      let again = reschedule first.0 t2 origin epoch in
      let last = reschedule again.0 t3 origin epoch in
      ((first.1 ≡ 1)
        × (first.2 ≡ true)
        × (first.0.deferred origin epoch ≡ some (t1 + 60 * second))
        × PutBack q first.0 origin epoch (t1 + 60 * second))
      × ((again.1 ≡ 2)
          × (again.2 ≡ true)
          × (again.0.deferred origin epoch ≡ some (t2 + 120 * second))
          × PutBack first.0 again.0 origin epoch (t2 + 120 * second))
      × ((last.1 ≡ 3)
          × (last.2 ≡ false)
          × (last.0.deferred origin epoch ≡ some (t3 + 86400 * second))
          × (last.0.attempts origin epoch ≡ none)
          × (last.0.retry ≡ again.0.retry))
reschedule_gives_up q origin epoch t1 t2 t3 h =
    let a = reschedule-IsRequeued q origin epoch 0 t1 (ap value_of h) (omega arith) in
    let q1 = (reschedule q t1 origin epoch).0 in
    let b = reschedule-IsRequeued q1 origin epoch 1 t2 (ap value_of a.attempts) (omega arith) in
    let q2 = (reschedule q1 t2 origin epoch).0 in
    let c = reschedule-IsDropped q2 origin epoch t3 (ap value_of b.attempts) in
    (
      (a.count, a.again, a.wait_until, a.put_back),
      (b.count, b.again, b.wait_until, b.put_back),
      (c.count, c.again, c.wait_until, c.attempts, c.retries),
    )
