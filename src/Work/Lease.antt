-- ===== src/Work/Lease.antt =====
-- Lease and scanFor of internal/work/work.go. `nothing` is ErrNoWork; `stuck` is no outcome of the
-- code, a loop of trimLeasedLocked that ran out of rounds.
use kt_witness.Common.{
  ℕ, zero, suc, ◌+◌, ◌%◌, String, str_eq, Bool, false, ◌&&◌, ◌||◌, not, List, [], ◌∷◌, length, ltb,
  leb, ◌==◌, if◌then◌else◌, Option, none, some,
}
use kt_witness.Store.Db.{Time}
use kt_witness.Work.Queue.{
  Assignment, Queue, put, value_of, quiet_for, max_probes, reclaim, hand_out,
}
use kt_witness.Work.Trim.{Trimmed, trim_leased, trim_deferred}

-- What one probe of the Source meets: what it answers, and again from the bottom, what others make of
-- the queue while it is not locked, and the time then.
pub record Probe : Type 0 where
  pub source : String → ℕ → ℕ → Option (ℕ × ℕ)
  pub again : String → ℕ → ℕ → Option (ℕ × ℕ)
  pub others : Queue → Queue
  pub now : Time

unfoldable pub scan_for : Probe → String → ℕ → ℕ → Option (ℕ × ℕ)
scan_for p origin at want = elim (p.source origin at want) [
  | some run ↦ some run
  | none ↦ if at == 0 then none else p.again origin 0 want
]

abbrev pub is_member : String → List String → Bool
is_member x [] = false
is_member x (y ∷ rest) = str_eq x y || is_member x rest

-- len(can) > 0 && !can[origin]
abbrev pub cannot : List String → String → Bool
cannot origins origin = not (length origins == 0) && not (is_member origin origins)

abbrev pub is_waiting : Assignment → Time → Bool
is_waiting a now = not (a.not_before == 0) && ltb now a.not_before

-- A retry that stays, beside the one that is taken.
abbrev pub kept :
    Assignment → Option (Assignment × List Assignment) → Option (Assignment × List Assignment)
kept a none = none
kept a (some (b, others)) = some (b, a ∷ others)

-- The first retry that this worker may have, and the others.
unfoldable pub take_retry :
    List Assignment → List String → Time → Option (Assignment × List Assignment)
take_retry [] origins now = none
take_retry (a ∷ rest) origins now =
    let later = kept a (take_retry rest origins now) in
    if cannot origins a.origin || is_waiting a now then later else some (a, rest)

abbrev pub nth : List String → ℕ → String → String
nth [] n default = default
nth (x ∷ rest) zero default = x
nth (x ∷ rest) (suc n) default = nth rest n default

-- order[i] = try[(q.rotate+i)%len(try)], from i on; the remainder is below the length.
unfoldable pub rotated : List String → ℕ → ℕ → List String
rotated try i zero = []
rotated try i (suc n) = nth try (i % length try) "" ∷ rotated try (i + 1) n

-- sort.SliceStable, the deepest first.
unfoldable pub insert_deep : (String → ℕ) → String → List String → List String
insert_deep depth x [] = x ∷ []
insert_deep depth x (y ∷ rest) =
    if leb (depth y) (depth x) then x ∷ y ∷ rest else y ∷ insert_deep depth x rest

unfoldable pub deepest_first : (String → ℕ) → List String → List String
deepest_first depth [] = []
deepest_first depth (x ∷ rest) = insert_deep depth x (deepest_first depth rest)

unfoldable pub order_of : Queue → Option (String → ℕ) → List String → List String
unfolding rotated deepest_first
order_of q waiting try = elim waiting [
  | none ↦ rotated try q.rotate (length try)
  | some depth ↦ deepest_first depth (rotated try q.rotate (length try))
]

-- How the probes of one origin end, with the number of the next probe of the request.
pub data Probed : Type 0 where
  stuck : Probed
  found : Queue → Time → ℕ → ℕ → ℕ → Probed
  given_up : Queue → Time → ℕ → Probed

-- The end of a run that is not free: the scan goes on at `next`.
abbrev pub look_past : Queue → String → ℕ → Queue
look_past q origin at =
    if ltb (value_of (q.cursor origin)) at
    then record q { cursor = put q.cursor origin (some at) }
    else q

-- A run is checked against the leases and then against the backoffs.
unfoldable pub check_run : Queue → String → ℕ → ℕ → Time → Option Trimmed
check_run q origin from to now = elim (trim_leased q.leased origin from to) [
  | none ↦ none
  | some r ↦
      let d = trim_deferred q origin r.from r.to now in
      if r.free then some (record r { from = d.0; to = d.1; free = d.2 }) else some r
]

unfoldable pub probe_loop : (ℕ → Probe) → ℕ → Queue → Time → String → ℕ → ℕ → ℕ → Probed
probe_loop probes zero q now origin want at i = given_up q now i
probe_loop probes (suc left) q now origin want at i =
    let p = probes i in
    let q' = p.others q in
    elim (scan_for p origin at want) [
      | none ↦
          given_up (record q' { quiet = put q'.quiet origin (some (p.now + quiet_for)) }) now
            (suc i)
      | some (from, to) ↦ elim (check_run q' origin from to p.now) [
        | none ↦ stuck
        | some r ↦
            let next = if leb r.next at then to + 1 else r.next in
            let rest =
              probe_loop probes left (look_past q' origin next) p.now origin want next (suc i) in
            if r.free then found q' p.now r.from r.to (suc i) else rest
      ]
    ]

pub data Leased : Type 0 where
  stuck_lease : Leased
  nothing : Queue → Leased
  handed : Queue → Assignment → Leased

abbrev pub is_quiet : Queue → String → Time → Bool
is_quiet q origin now = elim (q.quiet origin) [ none ↦ false | some t ↦ ltb now t ]

-- The assignment of a free run.
abbrev pub fresh_run : Queue → String → ℕ → ℕ → Assignment
fresh_run q origin from to = record {
  id = record { origin = origin; seq = q.next_seq + 1; retry = 0 };
  origin = origin;
  from = from;
  to = to;
  nonce = "";
  not_before = 0;
  deadline = 0;
  worker = "";
}

abbrev pub moved_on : Queue → String → ℕ → Queue
moved_on q origin to = record q {
  cursor = put q.cursor origin (some (to + 1));
  rotate = q.rotate + 1;
  next_seq = q.next_seq + 1;
}

unfoldable pub assign : Queue → String → String → String → ℕ → ℕ → Time → Leased
unfolding hand_out
assign q worker nonce origin from to now =
    let h = hand_out (moved_on q origin to) (fresh_run q origin from to) worker nonce now in
    handed h.0 h.1

-- The loop over the origins.
unfoldable pub try_origins :
    (ℕ → Probe) → Queue → Time → String → String → List String → ℕ → List String → ℕ → Leased
unfolding probe_loop
try_origins probes q now worker nonce origins want [] i = nothing q
try_origins probes q now worker nonce origins want (origin ∷ rest) i =
    let skipped = try_origins probes q now worker nonce origins want rest i in
    if cannot origins origin || is_quiet q origin now
    then skipped
    else elim (probe_loop probes max_probes q now origin want (value_of (q.cursor origin)) i) [
      | stuck ↦ stuck_lease
      | found q' now' from to i' ↦ assign q' worker nonce origin from to now'
      | given_up q' now' i' ↦ try_origins probes q' now' worker nonce origins want rest i'
    ]

-- The part that asks the Source, which may be nil.
unfoldable pub lease_fresh :
    Option (ℕ → Probe)
    → Option (String → ℕ)
    → Queue
    → Time
    → String
    → String
    → List String
    → ℕ
    → Leased
unfolding try_origins order_of
lease_fresh none waiting q now worker nonce origins want = nothing q
lease_fresh (some probes) waiting q now worker nonce origins want =
    let try = if length origins == 0 then q.origins else origins in
    try_origins probes q now worker nonce origins want (order_of q waiting try) 0

-- Lease, with what it may be given instead of a fresh run.
unfoldable pub retry_or :
    Queue → Option (Assignment × List Assignment) → String → String → Time → Leased → Leased
unfolding hand_out
retry_or q none worker nonce now fresh = fresh
retry_or q (some (a, rest)) worker nonce now fresh =
    let h = hand_out (record q { retry = rest }) a worker nonce now in handed h.0 h.1

unfoldable pub lease :
    Option (ℕ → Probe)
    → Option (String → ℕ)
    → Queue
    → Time
    → String
    → String
    → List String
    → ℕ
    → Leased
unfolding reclaim lease_fresh take_retry retry_or
lease probes waiting q now worker nonce origins want =
    let q' = reclaim q now in
    retry_or q' (take_retry q'.retry origins now) worker nonce now
      (lease_fresh probes waiting q' now worker nonce origins (if want == 0 then 1 else want))
