-- ===== src/Work/Queue.antt =====
-- The types of internal/work/work.go, its maps, the length of a lease and what gives a lease back. The
-- list `leased` has the values of the map in the order of one iteration over it. An id is what it is
-- printed from, with 0 for no retry; an epoch is not negative. An int64 of a duration is the number
-- modulo 2 ^ 64 that has its bits. The time 0 is the zero time.
use kt_witness.Common.{
  ℕ, ◌+◌, ◌-◌, ◌*◌, ◌/◌, ◌%◌, ◌^◌, String, str_eq, Bool, false, ◌&&◌, ◌||◌, not, List, [], ◌∷◌, ltb,
  leb, ◌==◌, if◌then◌else◌, Option, none, some,
}
use kt_witness.Store.Db.{Time}

pub record AssignmentId : Type 0 where
  pub origin : String
  pub seq : ℕ
  pub retry : ℕ

abbrev pub same_id : AssignmentId → AssignmentId → Bool
same_id a b = str_eq a.origin b.origin && (a.seq == b.seq) && (a.retry == b.retry)

pub record Assignment : Type 0 where
  pub id : AssignmentId
  pub origin : String
  pub from : ℕ
  pub to : ℕ
  pub nonce : String
  pub not_before : Time
  pub deadline : Time
  pub worker : String

-- What the queue reads of a result.
pub record Result : Type 0 where
  pub assignment : AssignmentId
  pub nonce : String
  pub origin : String
  pub epoch : ℕ
  pub worker : String
  pub duration_ms : ℕ
  pub err : String

pub record Queue : Type 0 where
  pub leased : List Assignment
  pub origins : List String
  pub rotate : ℕ
  pub quiet : String → Option Time
  pub cursor : String → Option ℕ
  pub retry : List Assignment
  pub reported : AssignmentId → Option (List ℕ)
  pub attempts : String → ℕ → Option ℕ
  pub deferred : String → ℕ → Option Time
  pub per_epoch : String → Option ℕ
  pub min_lease : ℕ
  pub next_seq : ℕ

-- A map keyed by origins, and one keyed by epochKey, with one value changed.
abbrev pub put : {A : Type 0} → (String → Option A) → String → Option A → String → Option A
put map key value = λ k. if str_eq k key then value else map k

abbrev pub put_epoch :
    {A : Type 0} → (String → ℕ → Option A) → String → ℕ → Option A → String → ℕ → Option A
put_epoch map origin epoch value = λ o e. if str_eq o origin && (e == epoch) then value else map o e

abbrev pub put_id :
    {A : Type 0} → (AssignmentId → Option A) → AssignmentId → Option A → AssignmentId → Option A
put_id map key value = λ k. if same_id k key then value else map k

-- The value at a missing key is 0.
abbrev pub value_of : Option ℕ → ℕ
value_of none = 0
value_of (some n) = n

abbrev pub second : ℕ
second = 1000000000

abbrev pub max_attempts : ℕ
max_attempts = 3

abbrev pub retry_base : ℕ
retry_base = 60 * second

abbrev pub give_up_for : ℕ
give_up_for = 24 * 3600 * second

abbrev pub quiet_for : ℕ
quiet_for = 30 * second

abbrev pub max_probes : ℕ
max_probes = 16

abbrev pub is_positive : ℕ → Bool
is_positive d = ltb 0 d && ltb d (2 ^ 63)

-- The order of int64.
abbrev pub is_less : ℕ → ℕ → Bool
is_less a b = ltb ((a + 2 ^ 63) % 2 ^ 64) ((b + 2 ^ 63) % 2 ^ 64)

-- Division by 8 rounds towards 0.
abbrev pub eighth : ℕ → ℕ
eighth d = if ltb d (2 ^ 63) then d / 8 else (2 ^ 64 - (2 ^ 64 - d) / 8) % 2 ^ 64

abbrev pub default_lease : ℕ
default_lease = 120 * second

-- The map that has no key.
abbrev pub no_keys : {K A : Type 0} → K → Option A
no_keys k = none

unfoldable pub new_queue : ℕ → Queue
new_queue min_lease = record {
  leased = [];
  origins = [];
  rotate = 0;
  quiet = no_keys;
  cursor = no_keys;
  retry = [];
  reported = no_keys;
  attempts = λ o. no_keys;
  deferred = λ o. no_keys;
  per_epoch = no_keys;
  min_lease = if is_positive min_lease then min_lease else default_lease;
  next_seq = 0;
}

unfoldable pub lease_for : Queue → String → ℕ → ℕ
lease_for q origin n =
    let per = value_of (q.per_epoch origin) in
    let d = n * per * 4 % 2 ^ 64 in
    if not (is_positive per) then q.min_lease else if is_less d q.min_lease then q.min_lease else d

unfoldable pub observe : Queue → String → ℕ → Queue
observe q origin d =
    let cur = value_of (q.per_epoch origin) in
    if not (is_positive d)
    then q
    else if is_positive cur
    then record q { per_epoch = put q.per_epoch origin (some (eighth ((cur * 7 + d) % 2 ^ 64))) }
    else record q { per_epoch = put q.per_epoch origin (some d) }

-- delete(q.leased, id)
abbrev pub without : AssignmentId → List Assignment → List Assignment
without id [] = []
without id (a ∷ rest) = if same_id a.id id then without id rest else a ∷ without id rest

unfoldable pub hand_out : Queue → Assignment → String → String → Time → Queue × Assignment
unfolding lease_for
hand_out q a worker nonce now =
    let held = record a {
      nonce = nonce;
      not_before = 0;
      deadline = now + lease_for q a.origin (a.to - a.from + 1);
      worker = worker;
    } in
    (
      record q {
        leased = held ∷ without a.id q.leased;
        reported = put_id q.reported a.id (some []);
      },
      held,
    )

-- What release does to an origin's cursor.
abbrev pub rewound : Option ℕ → ℕ → Option ℕ
rewound none from = some from
rewound (some at) from = if ltb from at then some from else some at

unfoldable pub release : Queue → Assignment → Queue
release q a = record q {
  leased = without a.id q.leased;
  reported = put_id q.reported a.id none;
  cursor = put q.cursor a.origin (rewound (q.cursor a.origin) a.from);
  quiet = put q.quiet a.origin none;
}

-- The loop of reclaimLocked, over the leases that there were when it began.
unfoldable pub reclaim_loop : Queue → Time → List Assignment → Queue
unfolding release
reclaim_loop q now [] = q
reclaim_loop q now (a ∷ rest) =
    reclaim_loop (if ltb a.deadline now then release q a else q) now rest

unfoldable pub reclaim : Queue → Time → Queue
unfolding reclaim_loop
reclaim q now = reclaim_loop q now q.leased

abbrev pub covers : Assignment → String → ℕ → Bool
covers a origin epoch = str_eq a.origin origin && leb a.from epoch && leb epoch a.to

-- The loop of LeasedBy.
unfoldable pub holds : List Assignment → String → String → ℕ → Bool
holds [] worker origin epoch = false
holds (a ∷ rest) worker origin epoch =
    (str_eq a.worker worker && covers a origin epoch) || holds rest worker origin epoch

unfoldable pub leased_by : Queue → Time → String → String → ℕ → Queue × Bool
unfolding reclaim holds
leased_by q now worker origin epoch =
    let r = reclaim q now in (r, holds r.leased worker origin epoch)

abbrev pub is_held : List Assignment → AssignmentId → Bool
is_held [] id = false
is_held (a ∷ rest) id = same_id a.id id || is_held rest id

unfoldable pub finished : Queue → AssignmentId → Bool
finished q id = not (is_held q.leased id)

unfoldable pub done : Queue → AssignmentId → Queue
done q id = record q { leased = without id q.leased }
