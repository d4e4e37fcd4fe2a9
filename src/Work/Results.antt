-- ===== src/Work/Results.antt =====
-- Accept, Reschedule and the counts of internal/work/work.go.
use kt_witness.Common.{
  ℕ, ◌+◌, ◌-◌, ◌*◌, ◌%◌, ◌^◌, String, str_eq, Bool, true, false, ◌&&◌, ◌||◌, not, List, [], ◌∷◌,
  ◌++◌, length, ltb, leb, ◌==◌, if◌then◌else◌, Option, none, some,
}
use kt_witness.Store.Db.{Time}
use kt_witness.Work.Queue.{
  AssignmentId, same_id, Assignment, Result, Queue, put_epoch, put_id, value_of, observe, release,
  without, reclaim, max_attempts, retry_base, give_up_for,
}

pub data Refusal : Type 0 where
  unknown_id bad_nonce lease_expired outside_range : Refusal

-- q.leased[id]
unfoldable pub lookup : List Assignment → AssignmentId → Option Assignment
lookup [] id = none
lookup (a ∷ rest) id = let later = lookup rest id in if same_id a.id id then some a else later

-- A set of epochs with one more.
abbrev pub has_epoch : List ℕ → ℕ → Bool
has_epoch [] e = false
has_epoch (x ∷ rest) e = (x == e) || has_epoch rest e

abbrev pub add_epoch : List ℕ → ℕ → List ℕ
add_epoch seen e = if has_epoch seen e then seen else e ∷ seen

abbrev pub seen_of : Option (List ℕ) → List ℕ
seen_of none = []
seen_of (some seen) = seen

-- What an answer without an error changes before the range is given back.
abbrev pub measured : Queue → Result → Queue
measured q r =
    let q' = observe q r.origin (r.duration_ms * 1000000 % 2 ^ 64) in
    if str_eq r.err ""
    then record q' { deferred = put_epoch q'.deferred r.origin r.epoch none }
    else q

-- The range is given back with its last epoch.
abbrev pub settled : Queue → Assignment → Result → List ℕ → Queue
settled q a r seen =
    if length seen == a.to - a.from + 1
    then record q {
      leased = without r.assignment q.leased;
      reported = put_id q.reported r.assignment none;
    }
    else q

abbrev pub cleared : Queue → Result → Queue
cleared q r =
    if str_eq r.err ""
    then record q { attempts = put_epoch q.attempts r.origin r.epoch none }
    else q

-- Accept of a result that answers a lease.
unfoldable pub taken : Queue → Assignment → Result → Queue
taken q a r =
    let seen = add_epoch (seen_of (q.reported r.assignment)) r.epoch in
    let q' = record q { reported = put_id q.reported r.assignment (some seen) } in
    cleared (settled (measured q' r) a r seen) r

-- `none` is no error.
unfoldable pub accept : Queue → Time → Result → Queue × Option Refusal
unfolding taken
accept q now r = elim (lookup q.leased r.assignment) [
  | none ↦ (q, some unknown_id)
  | some a ↦
      if not (str_eq a.nonce r.nonce)
      then (q, some bad_nonce)
      else if ltb a.deadline now
      then (release q a, some lease_expired)
      else if ltb r.epoch a.from || ltb a.to r.epoch
      then (q, some outside_range)
      else (taken q a r, none)
]

unfoldable pub reschedule : Queue → Time → String → ℕ → Queue × ℕ × Bool
reschedule q now origin epoch =
    let n = value_of (q.attempts origin epoch) + 1 in
    let not_before = now + retry_base * 2 ^ (n - 1) in
    if leb max_attempts n
    then (
      record q {
        attempts = put_epoch q.attempts origin epoch none;
        deferred = put_epoch q.deferred origin epoch (some (now + give_up_for));
      },
      n,
      false,
    )
    else (
      record q {
        attempts = put_epoch q.attempts origin epoch (some n);
        next_seq = q.next_seq + 1;
        deferred = put_epoch q.deferred origin epoch (some not_before);
        retry =
            q.retry
            ++ record {
              id = record { origin = origin; seq = q.next_seq + 1; retry = n };
              origin = origin;
              from = epoch;
              to = epoch;
              nonce = "";
              not_before = not_before;
              deadline = 0;
              worker = "";
            }
              ∷ [];
      },
      n,
      true,
    )

abbrev pub is_ready : Time → Assignment → Bool
is_ready now a = (a.not_before == 0) || leb a.not_before now

abbrev pub count : (Assignment → Bool) → List Assignment → ℕ
count test [] = 0
count test (a ∷ rest) = (if test a then 1 else 0) + count test rest

abbrev pub epochs_of : String → List Assignment → ℕ
epochs_of origin [] = 0
epochs_of origin (a ∷ rest) =
    (if str_eq a.origin origin then a.to - a.from + 1 else 0) + epochs_of origin rest

unfoldable pub leased_epochs : Queue → Time → String → Queue × ℕ
leased_epochs q now origin = let r = reclaim q now in (r, epochs_of origin r.leased)

unfoldable pub stats : Queue → Time → Queue × ℕ × ℕ
stats q now = let r = reclaim q now in (r, count (is_ready now) r.retry, length r.leased)

unfoldable pub stats_for : Queue → Time → String → Queue × ℕ × ℕ
stats_for q now origin =
    let r = reclaim q now in
    (
      r,
      count (λ a. str_eq a.origin origin && is_ready now a) r.retry,
      count (λ a. str_eq a.origin origin) r.leased,
    )
