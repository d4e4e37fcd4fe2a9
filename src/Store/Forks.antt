-- ===== src/Store/Forks.antt =====
-- Store.RecordFork and Store.IsForked of internal/store/store.go, and Store.RetractFork of
-- internal/store/retract.go. The proofs are in the modules below.
pub mod Laws
pub mod Again
use kt_witness.Common.{
  ℕ, String, Bool, true, false, Option, none, some, List, [], ◌∷◌, ltb, str_eq, if◌then◌else◌,
}
use kt_witness.Store.Bolt.{Bolt, Key, by_origin, by_number, by_peer}
use kt_witness.Store.Db.{
  Fork, Retraction, Time, Db, Result, ok, err, not_forked, no_evidence, reason_required, transact,
}

abbrev pub is_some {ℓ} : {A : Type ℓ} → Option A → Bool
is_some none = false
is_some (some a) = true

-- The keys "origin|..." of one origin.
abbrev pub of_origin : String → Key → Bool
of_origin o (by_number a n) = str_eq a o
of_origin o (by_origin a) = false
of_origin o (by_peer a n w) = false

-- The body of RetractFork's loop: the first one met is kept among equals.
abbrev earlier : Option Fork → Fork → Fork
earlier none c = c
earlier (some f) c = if ltb c.detected_at f.detected_at then c else f

earliest : Option Fork → List Fork → Option Fork
earliest f [] = f
earliest f (cand ∷ rest) = earliest (some (earlier f cand)) rest

module _ (bolt : Bolt) where
  abbrev pub poison_at : Db bolt → String → Option Time
  poison_at db origin = bolt.get db.poisoned (by_origin origin)

  unfoldable pub is_forked : Bool → Db bolt → String → Result Bool
  is_forked commits db origin = (transact commits db db (ok (is_some (poison_at db origin)))).1

  -- The first evidence is kept, and the poison marker is written beside it.
  unfoldable pub record_fork : Bool → Fork → Db bolt → Db bolt × Result (Unit {0})
  record_fork commits f db =
      transact commits db
        (if is_some (poison_at db f.origin) then db else record db {
          forks = bolt.put db.forks (by_number f.origin f.detected_at) f;
          poisoned = bolt.put db.poisoned (by_origin f.origin) f.detected_at;
        })
        (ok tt)

  retract_finding : Time → String → String → Option Fork → Db bolt → Db bolt × Result (Unit {0})
  retract_finding now origin reason none db = (db, err no_evidence)
  retract_finding now origin reason (some f) db = (
    record db {
      retractions =
          bolt.put db.retractions (by_origin origin)
            (record { origin = origin; reason = reason; retracted_at = now; fork = f });
      poisoned = bolt.delete db.poisoned (by_origin origin);
    },
    ok tt,
  )

  unfoldable pub retract_fork :
      Bool → Time → String → String → Db bolt → Db bolt × Result (Unit {0})
  unfolding retract_finding earliest
  retract_fork commits now origin reason db =
      if str_eq reason ""
      then (db, err reason_required)
      else let (db', r) =
          (if is_some (poison_at db origin)
            then retract_finding now origin reason
                (earliest none (bolt.scan db.forks (of_origin origin))) db
            else (db, err not_forked)) in
        transact commits db db' r
