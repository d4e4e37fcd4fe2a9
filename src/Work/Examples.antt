-- ===== src/Work/Examples.antt =====
-- The theorems of the work queue at concrete queues.
use kt_witness.Common.{ℕ, ◌+◌, ◌*◌, ◌≡◌, refl, true, false, List, [], ◌∷◌, none, some}
use kt_witness.Work.Queue.{Assignment, Result, Queue, new_queue, second}
use kt_witness.Work.Trim.{Trimmed, trim_leased, skip_leased, skip_pass, stop_before}
use kt_witness.Work.Lease.{Probe, lease, check_run}
use kt_witness.Work.Results.{accept, lookup, reschedule}
use kt_witness.Work.Trimmed.{IsTrimmed, trim_leased-IsTrimmed}
use kt_witness.Work.Due.{MayLease, check_run-MayLease}
use kt_witness.Work.Separate.{IsSound, Separate}
use kt_witness.Work.Exclusive.{IsExclusive, lease-IsExclusive}
use kt_witness.Work.Answers.{Answers, accept-Answers}
use kt_witness.Work.Backoff.{PutBack, reschedule_gives_up}

abbrev held : ℕ → ℕ → ℕ → Assignment
held seq from to = record {
  id = record { origin = "log"; seq = seq; retry = 0 };
  origin = "log";
  from = from;
  to = to;
  nonce = "n";
  not_before = 0;
  deadline = 100;
  worker = "laptop";
}

abbrev one_lease : Queue
one_lease = record (new_queue 0) { leased = held 1 10 12 ∷ [] }

one_lease-IsSound : IsSound one_lease
unfolding new_queue Separate
one_lease-IsSound = record { separate = (tt, tt); retries = tt }

abbrev two_leases : List Assignment
two_leases = held 1 10 12 ∷ held 2 15 20 ∷ []

-- A run that begins inside a lease goes on after it, up to the next lease.
trim_leased-IsTrimmed_example :
    (r : Trimmed) × (trim_leased two_leases "log" 11 18 ≡ some r)
    × IsTrimmed two_leases "log" 11 18 r
trim_leased-IsTrimmed_example = trim_leased-IsTrimmed two_leases "log" 11 18

run_between_leases :
    trim_leased two_leases "log" 11 18
    ≡ some (record { from = 13; to = 14; free = true; next = 15 })
unfolding trim_leased skip_leased skip_pass stop_before
run_between_leases = refl

check_run-MayLease_example :
    (r : Trimmed) × (check_run one_lease "log" 11 18 50 ≡ some r)
    × (r.free ≡ true → MayLease one_lease "log" 50 11 18 r)
check_run-MayLease_example = check_run-MayLease one_lease "log" 50 11 18

-- A Source that offers one run, with nobody else at the queue.
abbrev quiet_probe : Probe
quiet_probe = record {
  source = λ origin after n. some (11, 18);
  again = λ origin after n. none;
  others = λ q. q;
  now = 51;
}

lease-IsExclusive_example :
    IsExclusive (lease (some (λ i. quiet_probe)) none one_lease 50 "desk" "m" ("log" ∷ []) 8)
lease-IsExclusive_example =
    lease-IsExclusive (λ i. quiet_probe) none one_lease 50 "desk" "m" ("log" ∷ []) 8 (λ i q s. s)
      one_lease-IsSound

abbrev answer : Result
answer = record {
  assignment = record { origin = "log"; seq = 1; retry = 0 };
  nonce = "n";
  origin = "log";
  epoch = 11;
  worker = "laptop";
  duration_ms = 2000;
  err = "";
}

answer-accepted : (accept one_lease 60 answer).1 ≡ none
unfolding accept lookup new_queue
answer-accepted = refl

accept-Answers_example : (a : Assignment) × Answers one_lease 60 answer a
accept-Answers_example = accept-Answers one_lease 60 answer answer-accepted

reschedule_gives_up_example :
    let first = reschedule one_lease 60 "log" 11 in
    let again = reschedule first.0 70 "log" 11 in
    let last = reschedule again.0 80 "log" 11 in
    ((first.1 ≡ 1)
      × (first.2 ≡ true)
      × (first.0.deferred "log" 11 ≡ some (60 + 60 * second))
      × PutBack one_lease first.0 "log" 11 (60 + 60 * second))
    × ((again.1 ≡ 2)
        × (again.2 ≡ true)
        × (again.0.deferred "log" 11 ≡ some (70 + 120 * second))
        × PutBack first.0 again.0 "log" 11 (70 + 120 * second))
    × ((last.1 ≡ 3)
        × (last.2 ≡ false)
        × (last.0.deferred "log" 11 ≡ some (80 + 86400 * second))
        × (last.0.attempts "log" 11 ≡ none)
        × (last.0.retry ≡ again.0.retry))
unfolding new_queue
reschedule_gives_up_example = reschedule_gives_up one_lease "log" 11 60 70 80 refl
