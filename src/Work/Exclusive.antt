-- ===== src/Work/Exclusive.antt =====
-- Lease hands out no epoch that another lease of a fresh run has, whatever others do to the queue while
-- it is not locked.
use kt_witness.Common.{
  ℕ, zero, suc, ◌+◌, ◌≤◌, ◌<◌, ◌≡◌, refl, String, false, ◌||◌, List, [], ◌∷◌, All, leb, ◌==◌,
  if◌then◌else◌, Option, none, some, arith, Bool-cases, inl, inr,
}
use kt_witness.Store.Db.{Time}
use kt_witness.Work.Queue.{Assignment, Queue, value_of, max_probes, reclaim}
use kt_witness.Work.Lease.{
  Probe, scan_for, take_retry, kept, cannot, is_waiting, Probed, stuck, found, given_up, look_past,
  probe_loop, Leased, stuck_lease, nothing, handed, is_quiet, fresh_run, moved_on, assign, retry_or,
  try_origins, lease_fresh, lease,
}
use kt_witness.Work.Skipped.{is_leased}
use kt_witness.Work.Due.{check_run-MayLease}
use kt_witness.Work.Separate.{
  IsSound, IsSound-same, reclaim-IsSound, hand_out-IsSound, retry-Apart, unleased-Apart,
}

-- The loops have ended, and the leases of the queue that Lease leaves are apart.
pub IsExclusive : Leased → Type 0
IsExclusive stuck_lease = ⊥
IsExclusive (nothing q) = IsSound q
IsExclusive (handed q a) = IsSound q

ProbedIsSound : String → Probed → Type 0
ProbedIsSound origin stuck = ⊥
ProbedIsSound origin (found q now from to i) =
    IsSound q × ((e : ℕ) → from ≤ e → e ≤ to → is_leased q.leased origin e ≡ false)
ProbedIsSound origin (given_up q now i) = IsSound q

look_past-IsSound :
    (q : Queue) (origin : String) (at : ℕ) → IsSound q → IsSound (look_past q origin at)
look_past-IsSound q origin at s =
    IsSound-same q (look_past q origin at) s (ground arith) (ground arith)

module _ (probes : ℕ → Probe)
    (others : (i : ℕ) (q : Queue) → IsSound q → IsSound ((probes i).others q)) where
  probe_loop-IsSound :
      (left : ℕ) (q : Queue) (now : Time) (origin : String) (want at i : ℕ)
      → IsSound q
      → ProbedIsSound origin (probe_loop probes left q now origin want at i)
  unfolding probe_loop ProbedIsSound
  probe_loop-IsSound zero q now origin want at i s = s
  probe_loop-IsSound (suc left) q now origin want at i s =
      cases (λ q' now' at' i' s'. probe_loop-IsSound left q' now' origin want at' i' s')
        (scan_for (probes i) origin at want) refl
    where
      cases :
          ((q' : Queue) (now' : Time) (at' i' : ℕ)
            → IsSound q'
            → ProbedIsSound origin (probe_loop probes left q' now' origin want at' i'))
          → (run : Option (ℕ × ℕ)) → scan_for (probes i) origin at want ≡ run
          → ProbedIsSound origin (probe_loop probes (suc left) q now origin want at i)
      cases ih none e =
          rw (probe_loop, e) (IsSound-same ((probes i).others q) _ (others i q s) refl refl)
      cases ih (some (from, to)) e =
          let q' = (probes i).others q in
          let sound = others i q s in
          let (r, run, may) = check_run-MayLease q' origin (probes i).now from to in
          let next = if leb r.next at then to + 1 else r.next in
          elim (Bool-cases r.free) [
            | inl free ↦ rw (probe_loop, e) (rw run (simp free (sound, (may free).unleased)))
            | inr free ↦
                rw (probe_loop, e)
                  (rw run (
                    simp free (
                      ih (look_past q' origin next) (probes i).now next (suc i)
                        (look_past-IsSound q' origin next sound))))
          ]

  assign-IsExclusive :
      (q : Queue) (worker nonce origin : String) (from to : ℕ) (now : Time)
      → IsSound q
      → ((e : ℕ) → from ≤ e → e ≤ to → is_leased q.leased origin e ≡ false)
      → IsExclusive (assign q worker nonce origin from to now)
  unfolding assign IsExclusive
  assign-IsExclusive q worker nonce origin from to now s free =
      hand_out-IsSound (moved_on q origin to) (fresh_run q origin from to) worker nonce now
        (record { separate = s.separate; retries = s.retries })
        (unleased-Apart (fresh_run q origin from to) q.leased free)

  probed-IsExclusive :
      (p : Probed) (worker nonce origin : String) (origins rest : List String) (want : ℕ)
      → ProbedIsSound origin p
      → ((q : Queue) (now : Time) (i : ℕ)
          → IsSound q
          → IsExclusive (try_origins probes q now worker nonce origins want rest i))
      → IsExclusive (elim p [
        | stuck ↦ stuck_lease
        | found q' now' from to i' ↦ assign q' worker nonce origin from to now'
        | given_up q' now' i' ↦ try_origins probes q' now' worker nonce origins want rest i'
      ])
  unfolding ProbedIsSound IsExclusive
  probed-IsExclusive stuck worker nonce origin origins rest want s ih = s
  probed-IsExclusive (found q now from to i) worker nonce origin origins rest want (s, free) ih =
      assign-IsExclusive q worker nonce origin from to now s free
  probed-IsExclusive (given_up q now i) worker nonce origin origins rest want s ih = ih q now i s

  try_origins-IsExclusive :
      (q : Queue) (now : Time) (worker nonce : String) (origins : List String) (want : ℕ)
      (order : List String) (i : ℕ)
      → IsSound q
      → IsExclusive (try_origins probes q now worker nonce origins want order i)
  unfolding try_origins IsExclusive
  try_origins-IsExclusive q now worker nonce origins want [] i s = s
  try_origins-IsExclusive q now worker nonce origins want (origin ∷ rest) i s =
      elim (Bool-cases (cannot origins origin || is_quiet q origin now)) [
        | inl e ↦ simp e (try_origins-IsExclusive q now worker nonce origins want rest i s)
        | inr e ↦ simp e (
            probed-IsExclusive
              (probe_loop probes max_probes q now origin want (value_of (q.cursor origin)) i) worker
              nonce origin origins rest want
              (probe_loop-IsSound max_probes q now origin want (value_of (q.cursor origin)) i s)
              (λ q' now' i' s'.
                try_origins-IsExclusive q' now' worker nonce origins want rest i' s'))
      ]

-- A retry that is taken is marked as one, and so are those that stay.
RetriesKept : Option (Assignment × List Assignment) → Type 0
RetriesKept none = Unit
RetriesKept (some (a, rest)) = (0 < a.id.retry) × All (λ b. 0 < b.id.retry) rest

kept-RetriesKept :
    (a : Assignment) (r : Option (Assignment × List Assignment))
    → 0 < a.id.retry
    → RetriesKept r
    → RetriesKept (kept a r)
unfolding RetriesKept
kept-RetriesKept a none h k = tt
kept-RetriesKept a (some (b, rest)) h (p, all) = (p, (h, all))

take_retry-RetriesKept :
    (l : List Assignment) (origins : List String) (now : Time)
    → All (λ a. 0 < a.id.retry) l
    → RetriesKept (take_retry l origins now)
unfolding take_retry RetriesKept
take_retry-RetriesKept [] origins now all = tt
take_retry-RetriesKept (a ∷ rest) origins now (p, all) =
    elim (Bool-cases (cannot origins a.origin || is_waiting a now)) [
      | inl e ↦ simp e (kept-RetriesKept a _ p (take_retry-RetriesKept rest origins now all))
      | inr e ↦ simp e (p, all)
    ]

retry_or-IsExclusive :
    (q : Queue) (r : Option (Assignment × List Assignment)) (worker nonce : String) (now : Time)
    (fresh : Leased)
    → IsSound q
    → RetriesKept r
    → IsExclusive fresh
    → IsExclusive (retry_or q r worker nonce now fresh)
unfolding retry_or RetriesKept IsExclusive
retry_or-IsExclusive q none worker nonce now fresh s k f = f
retry_or-IsExclusive q (some (a, rest)) worker nonce now fresh s (p, all) f =
    hand_out-IsSound (record q { retry = rest }) a worker nonce now
      (record { separate = s.separate; retries = all }) (retry-Apart a q.leased p)

-- Lease ends, and no two leases of fresh runs share an epoch after it, where none did before, and
-- where what others do to the queue while it is not locked keeps that.
pub lease-IsExclusive :
    (probes : ℕ → Probe) (waiting : Option (String → ℕ)) (q : Queue) (now : Time)
    (worker nonce : String) (origins : List String) (want : ℕ)
    → ((i : ℕ) (q' : Queue) → IsSound q' → IsSound ((probes i).others q'))
    → IsSound q
    → IsExclusive (lease (some probes) waiting q now worker nonce origins want)
unfolding lease lease_fresh
lease-IsExclusive probes waiting q now worker nonce origins want others s =
    let q' = reclaim q now in
    let s' = reclaim-IsSound q now s in
    retry_or-IsExclusive q' (take_retry q'.retry origins now) worker nonce now _ s'
      (take_retry-RetriesKept q'.retry origins now s'.retries)
      (try_origins-IsExclusive probes others q' now worker nonce origins
        (if want == 0 then 1 else want) _ 0 s')
