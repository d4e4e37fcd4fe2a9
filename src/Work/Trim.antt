-- ===== src/Work/Trim.antt =====
-- trimLeasedLocked and trimDeferredLocked of internal/work/work.go. The loop that skips leases takes
-- as many rounds as there are leases and one more; `none` is more than that.
use kt_witness.Common.{
  ℕ, zero, suc, ◌+◌, ◌-◌, String, str_eq, Bool, true, false, ◌&&◌, ◌||◌, List, [], ◌∷◌, length, ltb,
  leb, if◌then◌else◌, Option, none, some,
}
use kt_witness.Store.Db.{Time}
use kt_witness.Work.Queue.{Assignment, Queue, covers}

-- One pass over the leases: where the run begins now, and whether that moved.
unfoldable pub skip_pass : List Assignment → String → ℕ → Bool → ℕ × Bool
skip_pass [] origin from moved = (from, moved)
skip_pass (a ∷ rest) origin from moved =
    skip_pass rest origin (if covers a origin from then a.to + 1 else from)
      (covers a origin from || moved)

-- The first loop: where the run begins, or that nothing of it is left.
unfoldable pub skip_leased : ℕ → List Assignment → String → ℕ → ℕ → Option (ℕ × Bool)
unfolding skip_pass
skip_leased zero leased origin from to = none
skip_leased (suc rounds) leased origin from to =
    let p = skip_pass leased origin from false in
    let rest = skip_leased rounds leased origin p.0 to in
    if ltb to p.0 then some (p.0, false) else if p.1 then rest else some (p.0, true)

-- The second loop: the run ends before the next lease that begins inside it.
unfoldable pub stop_before : List Assignment → String → ℕ → ℕ → ℕ
stop_before [] origin from to = to
stop_before (a ∷ rest) origin from to =
    stop_before rest origin from
      (if str_eq a.origin origin && ltb from a.from && leb a.from to then a.from - 1 else to)

-- f, t, free and next.
pub record Trimmed : Type 0 where
  pub from : ℕ
  pub to : ℕ
  pub free : Bool
  pub next : ℕ

unfoldable pub trim_leased : List Assignment → String → ℕ → ℕ → Option Trimmed
unfolding skip_leased stop_before
trim_leased leased origin from to = elim (skip_leased (length leased + 1) leased origin from to) [
  | none ↦ none
  | some (at, false) ↦ some (record { from = 0; to = 0; free = false; next = at })
  | some (at, true) ↦
      let stop = stop_before leased origin at to in
      some (record { from = at; to = stop; free = leb at stop; next = stop + 1 })
]

abbrev pub is_deferred : Queue → String → Time → ℕ → Bool
is_deferred q origin now epoch = elim (q.deferred origin epoch) [
  | none ↦ false
  | some t ↦ ltb now t
]

-- The loops of trimDeferredLocked over `n` epochs from this one.
unfoldable pub first_due : Queue → String → Time → ℕ → ℕ → ℕ
first_due q origin now zero from = from
first_due q origin now (suc n) from =
    let rest = first_due q origin now n (from + 1) in
    if is_deferred q origin now from then rest else from

unfoldable pub first_deferred : Queue → String → Time → ℕ → ℕ → Option ℕ
first_deferred q origin now zero from = none
first_deferred q origin now (suc n) from =
    let rest = first_deferred q origin now n (from + 1) in
    if is_deferred q origin now from then some from else rest

-- The run from `start`, up to an epoch that is deferred.
abbrev pub cut : ℕ → ℕ → Option ℕ → ℕ × ℕ × Bool
cut start to none = (start, to, leb start to)
cut start to (some e) = (start, e - 1, leb start (e - 1))

unfoldable pub trim_deferred : Queue → String → ℕ → ℕ → Time → ℕ × ℕ × Bool
unfolding first_due first_deferred
trim_deferred q origin from to now =
    let start = first_due q origin now (to + 1 - from) from in
    cut start to (first_deferred q origin now (to + 1 - start) start)
