-- ===== src/Store/Forks/Again.antt =====
-- A log that is accused, cleared, and accused again.
use kt_witness.Common.{String, ◌≡◌, ◌<◌, true, none, some, arith, str_eq_iff}
use kt_witness.Store.Bolt.{Bolt, by_origin, by_number}
use kt_witness.Store.Db.{Fork, Time, Db, Result, ok}
use kt_witness.Store.Forks.{of_origin, poison_at, record_fork, retract_fork}
use kt_witness.Store.Forks.Laws.{retract_fork-ok}

module _ (bolt : Bolt) where
  fork-stored :
      (f : Fork) (db : Db bolt)
      → poison_at bolt db f.origin ≡ none
      → bolt.get (record_fork bolt true f db).0.forks (by_number f.origin f.detected_at) ≡ some f
  unfolding record_fork
  fork-stored f db clean = ground (
    arith,
    bolt.get-put db.forks (by_number f.origin f.detected_at) (by_number f.origin f.detected_at) f,
    str_eq_iff f.origin f.origin,
  )

  fork-kept :
      (g : Fork) (origin : String) (at : Time) (db : Db bolt)
      → at < g.detected_at
      → bolt.get (record_fork bolt true g db).0.forks (by_number origin at)
        ≡ bolt.get db.forks (by_number origin at)
  unfolding record_fork
  fork-kept g origin at db h =
      ground
        (arith, bolt.get-put db.forks (by_number g.origin g.detected_at) (by_number origin at) g)

  abbrev pub retracted_once : Fork → Time → String → Db bolt → Db bolt × Result (Unit {0})
  retracted_once f at reason db =
      retract_fork bolt true at f.origin reason (record_fork bolt true f db).0

  abbrev pub retracted_twice :
      Fork → Fork → Time → Time → String → String → Db bolt → Db bolt × Result (Unit {0})
  retracted_twice f g at at' reason reason' db =
      retract_fork bolt true at' f.origin reason'
        (record_fork bolt true g (retracted_once f at reason db).0).0

  -- A log is found forked, the finding is retracted, a later finding is recorded, and that is
  -- retracted too: where both retractions succeed, the second names a finding older than the one it
  -- lifts.
  pub retract_fork_again :
      (f g : Fork) (at at' : Time) (reason reason' : String) (db : Db bolt)
      → f.detected_at < g.detected_at
      → poison_at bolt db f.origin ≡ none
      → (retracted_once f at reason db).1 ≡ ok tt
      → (retracted_twice f g at at' reason reason' db).1 ≡ ok tt
      → (h : Fork) × (h.detected_at < g.detected_at)
        × (bolt.get
              (retracted_twice f g at at' reason reason' db).0.retractions
              (by_origin f.origin)
            ≡ some (record { origin = f.origin; reason = reason'; retracted_at = at'; fork = h }))
  retract_fork_again f g at at' reason reason' db older clean one two =
      let cleared : Db bolt = (retracted_once f at reason db).0 in
      let accused : Db bolt = (record_fork bolt true g cleared).0 in
      let (_, _, (_, first)) =
        retract_fork-ok bolt at f.origin reason (record_fork bolt true f db).0 true one in
      let (_, _, (h, second)) = retract_fork-ok bolt at' f.origin reason' accused true two in
      let still = fork-kept g f.origin f.detected_at cleared older in
      let stored =
        bolt.scan_complete accused.forks (of_origin f.origin) (by_number f.origin f.detected_at) f
          (ground (arith, str_eq_iff f.origin f.origin))
          (rw (still, first.kept) (fork-stored f db clean)) in
      (h, omega (arith, second.first f stored), second.written)
