-- ===== src/Witness/Process.antt =====
-- Witness.Process, Witness.fork and Witness.observePeers of internal/witness/witness.go.
use kt_witness.Common.{
  ◌-◌, String, Bool, true, false, not, ◌&&◌, ◌||◌, Option, none, some, List, [], ◌∷◌, ltb, ◌==◌,
  str_eq, if◌then◌else◌,
}
use kt_witness.Source.{Head, ForkError, Answer, value, contradiction, failed, Source}
use kt_witness.Store.Bolt.{Bolt}
use kt_witness.Store.Db.{Time, Bytes, Record, PeerAttestation, Db, Result, ok, err}
use kt_witness.Store.Heads.{get, compare_and_set}
use kt_witness.Store.Forks.{is_forked, record_fork}
use kt_witness.Store.Peers.{record_peer}
use kt_witness.Store.Seen.{record_seen_witness}
use kt_witness.Witness.Types.{
  Witness, PeerVerifier, Outcome, store_failed, forked_before, fork, fetch_failed, wrong_origin,
  derived_regression, regression_unproven, stale_replica, derived_split, unproven, stale,
  sign_failed, persist_failed, Returns, done, fails, Round, head_from, prev_of, evidence, Gate,
  stop, accuse, unchanged, go_on,
}

abbrev pub forced : Option Bool → Bool
forced none = false
forced (some b) = b

module _ {Note : Type 0} where
  abbrev pub conflict : Source Note → String → Record → Head Note → ForkError Note
  conflict src reason rec next = record {
    origin = src.origin;
    reason = reason;
    prev = some (head_from rec);
    next = some next;
  }

  -- A smaller head that the log signed: the larger tree must extend it.
  abbrev pub regression : Source Note → Record → Head Note → Answer Note (Unit {0}) → Gate Note
  regression src rec next (contradiction fe) = accuse (
      conflict src "size went backwards; and the smaller tree is not a prefix of the larger" rec
        next)
  regression src rec next failed = stop regression_unproven
  regression src rec next (value _) = stop stale_replica

  -- An unchanged tree is cosigned again when the source asks for it or the interval has passed.
  abbrev pub keeps_quiet : Witness Note → Source Note → Time → Record → Bool
  keeps_quiet w src now rec =
      not (forced src.refresh_now)
      && (w.refresh_interval == 0 || ltb (now - rec.witnessed_at) w.refresh_interval)

  unfoldable pub gate : Witness Note → Source Note → Time → Option Record → Head Note → Gate Note
  gate w src now none next = go_on false
  gate w src now (some rec) next =
      if ltb next.size rec.size
      then (if src.derived_head
          then stop derived_regression
          else regression src rec next (src.verify_consistency (some next) (head_from rec)))
      else if (next.size == rec.size) && not (next.hash == rec.hash)
      then (if src.derived_head
          then stop derived_split
          else accuse (conflict src "split view" rec next))
      else if next.size == rec.size
      then (if keeps_quiet w src now rec then unchanged else go_on true)
      else go_on false

  -- Gate 3: the view is older than MaxSignDelay allows.
  abbrev pub too_old : Witness Note → Time → Head Note → Bool
  too_old w now next = not (w.max_sign_delay == 0) && ltb w.max_sign_delay (now - next.fetched_at)

abbrev pub attested : Option (List PeerAttestation) → List PeerAttestation
attested none = []
attested (some obs) = obs

module _ {Note : Type 0} where
  abbrev pub persisted : Outcome → Result (Unit {0}) → Returns Note
  persisted o (ok _) = done o
  persisted o (err e) = fails (persist_failed e)

module _ (bolt : Bolt) where
  -- The loops of observePeers.
  unfoldable pub record_names : Round bolt → String → List String → Db bolt → Db bolt
  record_names rd origin [] db = db
  record_names rd origin (name ∷ rest) db =
      record_names rd origin rest
        (record_seen_witness bolt (rd.write_seen name) name origin rd.now_seen db).0

  unfoldable pub record_attestations : Round bolt → List PeerAttestation → Db bolt → Db bolt
  record_attestations rd [] db = db
  record_attestations rd (o ∷ rest) db =
      record_attestations rd rest (record_peer bolt (rd.write_seen o.witness) o db).0

  -- The disagreements that RecordPeer reports are logged, and change nothing here.
  unfoldable pub observe_signed :
      Option PeerVerifier → Bytes → Round bolt → String → Db bolt → Db bolt
  observe_signed none signed rd origin db = db
  observe_signed (some p) [] rd origin db = db
  observe_signed (some p) (x ∷ signed) rd origin db =
      record_attestations rd (attested (p.observe origin (x ∷ signed)))
        (record_names rd origin (p.unverifiable origin (x ∷ signed)) db)

module _ (bolt : Bolt) {Note : Type 0} where
  unfoldable pub observe_peers : Witness Note → Round bolt → String → Head Note → Db bolt → Db bolt
  unfolding observe_signed
  observe_peers w rd origin head db =
      observe_signed bolt w.peers head.signed rd origin
        (record_names bolt rd origin head.cosigners db)

  -- Evidence is written before the error is returned; a failure to write it is logged.
  unfoldable pub report_fork : Round bolt → ForkError Note → Db bolt → Db bolt × Returns Note
  report_fork rd fe db =
      ((record_fork bolt rd.write_fork (evidence rd.now_fork fe) db).0, fails (fork fe))

  unfoldable pub store_cosigned :
      Source Note
      → Round bolt
      → Head Note
      → Option Record
      → Bool
      → Option Bytes
      → Db bolt
      → Db bolt × Returns Note
  store_cosigned src rd next rec refresh none db = (db, fails sign_failed)
  store_cosigned src rd next rec refresh (some bytes) db =
      let (db', r) =
        compare_and_set bolt rd.write_head rec
          (record {
            origin = src.origin;
            size = next.size;
            hash = next.hash;
            cosigned = bytes;
            witnessed_at = rd.now_record;
          })
          db in
      (
        db',
        persisted
            (record {
              origin = src.origin;
              tier = src.tier;
              size = next.size;
              cosigned = true;
              unchanged = false;
              refreshed = refresh;
              note = bytes;
            })
            r,
      )

  unfoldable pub cosign :
      Witness Note
      → Source Note
      → Round bolt
      → Head Note
      → Option Record
      → Bool
      → Db bolt
      → Db bolt × Returns Note
  unfolding store_cosigned
  cosign w src rd next rec refresh db =
      if too_old w rd.now_fresh next
      then (db, fails stale)
      else store_cosigned src rd next rec refresh (w.sign next.note) db

  -- Gate 2, by the answer of VerifyConsistency.
  unfoldable pub proven :
      Witness Note
      → Source Note
      → Round bolt
      → Head Note
      → Option Record
      → Answer Note (Unit {0})
      → Db bolt
      → Db bolt × Returns Note
  unfolding cosign
  proven w src rd next rec (contradiction fe) db = report_fork rd fe db
  proven w src rd next rec failed db = (db, fails unproven)
  proven w src rd next rec (value _) db = cosign w src rd next rec false db

  unfoldable pub after_gate :
      Witness Note
      → Source Note
      → Round bolt
      → Head Note
      → Option Record
      → Gate Note
      → Db bolt
      → Db bolt × Returns Note
  unfolding report_fork cosign proven
  after_gate w src rd next rec (stop e) db = (db, fails e)
  after_gate w src rd next rec (accuse fe) db = report_fork rd fe db
  after_gate w src rd next rec unchanged db = (
    db,
    done (record {
      origin = src.origin;
      tier = src.tier;
      size = next.size;
      cosigned = false;
      unchanged = true;
      refreshed = false;
      note = [];
    }),
  )
  after_gate w src rd next rec (go_on true) db = cosign w src rd next rec true db
  after_gate w src rd next rec (go_on false) db =
      proven w src rd next rec (src.verify_consistency (prev_of rec) next) db

  unfoldable pub after_fetch :
      Witness Note
      → Source Note
      → Round bolt
      → Option Record
      → Answer Note (Head Note)
      → Db bolt
      → Db bolt × Returns Note
  unfolding report_fork after_gate gate observe_peers
  after_fetch w src rd rec (contradiction fe) db = report_fork rd fe db
  after_fetch w src rd rec failed db = (db, fails fetch_failed)
  after_fetch w src rd rec (value next) db =
      let db' = rd.during_verify (observe_peers w rd src.origin next db) in
      if str_eq next.origin src.origin
      then after_gate w src rd next rec (gate w src rd.now_refresh rec next) db'
      else (db', fails wrong_origin)

  unfoldable pub after_get :
      Witness Note
      → Source Note
      → Round bolt
      → Result (Option Record)
      → Db bolt
      → Db bolt × Returns Note
  unfolding after_fetch
  after_get w src rd (err e) db = (db, fails (store_failed e))
  after_get w src rd (ok rec) db =
      after_fetch w src rd rec (src.fetch (prev_of rec)) (rd.during_fetch db)

  unfoldable pub after_check :
      Witness Note → Source Note → Round bolt → Result Bool → Db bolt → Db bolt × Returns Note
  unfolding after_get
  after_check w src rd (err e) db = (db, fails (store_failed e))
  after_check w src rd (ok true) db = (db, fails forked_before)
  after_check w src rd (ok false) db = after_get w src rd (get bolt rd.read_head db src.origin) db

  -- Witness.Process.
  unfoldable pub process :
      Witness Note → Source Note → Round bolt → Db bolt → Db bolt × Returns Note
  unfolding after_check
  process w src rd db = after_check w src rd (is_forked bolt rd.read_forked db src.origin) db
