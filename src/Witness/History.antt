-- ===== src/Witness/History.antt =====
-- How the database may change while the witness runs: poisons stay, and heads only advance. Every
-- round moves it so, if what happens to it while the round waits does.
use kt_witness.Common.{
  ℕ, ◌≤◌, String, ◌≡◌, refl, subst, Bool, true, false, Option, none, some, List, [], ◌∷◌, arith,
  All, str_eq, str_eq_iff, Bool-cases, inl, inr,
}
use kt_witness.Source.{Head, ForkError, Answer, value, contradiction, failed, Source}
use kt_witness.Store.Bolt.{Bolt, by_origin}
use kt_witness.Store.Db.{
  Time, Bytes, Record, Fork, PeerAttestation, Db, raced, transact, Result, ok, err,
}
use kt_witness.Store.Heads.{head_at, head_moved, compare_and_set}
use kt_witness.Store.Forks.{is_some, poison_at, record_fork}
use kt_witness.Store.Forks.Laws.{record_fork_keeps}
use kt_witness.Store.Peers.{record_peer}
use kt_witness.Store.Seen.{record_seen_witness}
use kt_witness.Witness.Types.{Witness, Round, PeerVerifier, Gate, stop, accuse, unchanged, go_on}
use kt_witness.Witness.Process.{
  gate, too_old, record_names, record_attestations, observe_signed, observe_peers, report_fork,
  store_cosigned, cosign, proven, after_gate, after_fetch, after_get, after_check, process,
}

-- A head of this size and root may stand where the record stood.
abbrev pub MayFollow : Option Record → ℕ → ℕ → Type 0
MayFollow none size hash = Unit
MayFollow (some a) size hash = (a.size ≤ size) × (a.size ≡ size → a.hash ≡ hash)

abbrev pub HeadLe : Option Record → Option Record → Type 0
HeadLe none b = Unit
HeadLe (some a) none = ⊥
HeadLe (some a) (some b) = MayFollow (some a) b.size b.hash

HeadLe-refl : (a : Option Record) → HeadLe a a
HeadLe-refl none = tt
HeadLe-refl (some a) = (omega arith, λ _. refl)

HeadLe-trans : (a b c : Option Record) → HeadLe a b → HeadLe b c → HeadLe a c
HeadLe-trans none b c p q = tt
HeadLe-trans (some a) none c p q = absurd p
HeadLe-trans (some a) (some b) none p q = q
HeadLe-trans (some a) (some b) (some c) p q = ground arith

-- The stored head is the expected one, which the new head may follow.
HeadLe-moved :
    (cur expect : Option Record) (next : Record)
    → head_moved cur expect ≡ false
    → MayFollow expect next.size next.hash
    → HeadLe cur (some next)
HeadLe-moved none expect next h m = tt
HeadLe-moved (some c) none next h m = cc
HeadLe-moved (some c) (some e) next h m = ground arith

pub record Advances (bolt : Bolt) (db db' : Db bolt) : Type 0 where
  pub kept :
      (o : String) → is_some (poison_at bolt db o) ≡ true → is_some (poison_at bolt db' o) ≡ true
  pub grows : (o : String) → HeadLe (head_at bolt db o) (head_at bolt db' o)

module _ (bolt : Bolt) where
  pub Advances-refl : (db : Db bolt) → Advances bolt db db
  Advances-refl db = record { kept = λ o h. h; grows = λ o. HeadLe-refl _ }

  pub Advances-trans : {a b c : Db bolt} → Advances bolt a b → Advances bolt b c → Advances bolt a c
  Advances-trans p q = record {
    kept = λ o h. q.kept o (p.kept o h);
    grows = λ o. HeadLe-trans _ _ _ (p.grows o) (q.grows o);
  }

  -- Writes to the other buckets.
  record_fork-Advances :
      (commits : Bool) (f : Fork) (db : Db bolt)
      → Advances bolt db (record_fork bolt commits f db).0
  unfolding record_fork
  record_fork-Advances commits f db = record {
    kept = λ o h.
        ground (arith, bolt.get-put db.poisoned (by_origin f.origin) (by_origin o) f.detected_at);
    grows = λ o. rw ((record_fork_keeps bolt commits f db o).1, head_at) (HeadLe-refl _);
  }

  record_peer-Advances :
      (commits : Bool) (a : PeerAttestation) (db : Db bolt)
      → Advances bolt db (record_peer bolt commits a db).0
  unfolding record_peer
  record_peer-Advances true a db = record { kept = λ o h. h; grows = λ o. HeadLe-refl _ }
  record_peer-Advances false a db = Advances-refl db

  record_seen_witness-Advances :
      (commits : Bool) (name origin : String) (now : Time) (db : Db bolt)
      → Advances bolt db (record_seen_witness bolt commits name origin now db).0
  unfolding record_seen_witness
  record_seen_witness-Advances true name origin now db = record {
    kept = λ o h. h;
    grows = λ o. HeadLe-refl _;
  }
  record_seen_witness-Advances false name origin now db = Advances-refl db

  put_head_grows :
      (db : Db bolt) (next : Record) (o : String)
      → HeadLe (head_at bolt db next.origin) (some next)
      → HeadLe
          (head_at bolt db o)
          (bolt.get (bolt.put db.heads (by_origin next.origin) next) (by_origin o))
  put_head_grows db next o h = elim (Bool-cases (str_eq next.origin o)) [
    | inl same ↦
        rw (bolt.get-put, same)
          (subst (λ p. HeadLe (head_at bolt db p) (some next)) ((str_eq_iff next.origin o).0 same)
            h)
    | inr other ↦ rw (bolt.get-put, other) (HeadLe-refl _)
  ]

  pub compare_and_set-Advances :
      (commits : Bool) (expect : Option Record) (next : Record) (db : Db bolt)
      → MayFollow expect next.size next.hash
      → Advances bolt db (compare_and_set bolt commits expect next db).0
  unfolding compare_and_set
  compare_and_set-Advances commits expect next db m =
      elim (Bool-cases (head_moved (head_at bolt db next.origin) expect)) [
        | inl moved ↦ rw moved (rolled_back commits)
        | inr same ↦ rw same (written commits same)
      ]
    where
      rolled_back : (c : Bool) → Advances bolt db (transact {A = Unit {0}} c db db (err raced)).0
      rolled_back true = Advances-refl db
      rolled_back false = Advances-refl db

      written :
          (c : Bool)
          → head_moved (head_at bolt db next.origin) expect ≡ false
          → Advances bolt db
              (transact {A = Unit {0}} c db
                (record db { heads = bolt.put db.heads (by_origin next.origin) next })
                (ok tt)).0
      written true same = record {
        kept = λ o h. h;
        grows = λ o.
            put_head_grows db next o
              (HeadLe-moved (head_at bolt db next.origin) expect next same m);
      }
      written false same = Advances-refl db

-- A tree that gate 1 lets through is no smaller than the witnessed one, and the same root at its size.
gate-MayFollow :
    {Note : Type 0} (w : Witness Note) (src : Source Note) (now : Time) (rec : Option Record)
    (next : Head Note) (r : Bool)
    → gate w src now rec next ≡ go_on r
    → MayFollow rec next.size next.hash
unfolding gate
gate-MayFollow w src now none next r h = tt
gate-MayFollow w src now (some rec) next r h = ground arith

module _ (bolt : Bolt) {Note : Type 0} (w : Witness Note) (src : Source Note)
    (rd : Round bolt) where
  record_names-Advances :
      (origin : String) (names : List String) (db : Db bolt)
      → Advances bolt db (record_names bolt rd origin names db)
  unfolding record_names
  record_names-Advances origin [] db = Advances-refl bolt db
  record_names-Advances origin (name ∷ rest) db =
      Advances-trans bolt (record_seen_witness-Advances bolt _ name origin rd.now_seen db)
        (record_names-Advances origin rest _)

  record_attestations-Advances :
      (obs : List PeerAttestation) (db : Db bolt)
      → Advances bolt db (record_attestations bolt rd obs db)
  unfolding record_attestations
  record_attestations-Advances [] db = Advances-refl bolt db
  record_attestations-Advances (o ∷ rest) db =
      Advances-trans bolt (record_peer-Advances bolt _ o db) (record_attestations-Advances rest _)

  observe_signed-Advances :
      (peers : Option PeerVerifier) (signed : Bytes) (origin : String) (db : Db bolt)
      → Advances bolt db (observe_signed bolt peers signed rd origin db)
  unfolding observe_signed
  observe_signed-Advances none signed origin db = Advances-refl bolt db
  observe_signed-Advances (some p) [] origin db = Advances-refl bolt db
  observe_signed-Advances (some p) (x ∷ signed) origin db =
      Advances-trans bolt (record_names-Advances origin _ db) (record_attestations-Advances _ _)

  observe_peers-Advances :
      (next : Head Note) (db : Db bolt)
      → Advances bolt db (observe_peers bolt w rd src.origin next db)
  unfolding observe_peers
  observe_peers-Advances next db =
      Advances-trans bolt (record_names-Advances src.origin next.cosigners db)
        (observe_signed-Advances w.peers next.signed src.origin _)

  report_fork-Advances :
      (fe : ForkError Note) (db : Db bolt) → Advances bolt db (report_fork bolt rd fe db).0
  unfolding report_fork
  report_fork-Advances fe db = record_fork-Advances bolt _ _ db

  module _ (next : Head Note) (rec : Option Record)
      (follows : MayFollow rec next.size next.hash) where
    store_cosigned-Advances :
        (refresh : Bool) (signed : Option Bytes) (db : Db bolt)
        → Advances bolt db (store_cosigned bolt src rd next rec refresh signed db).0
    unfolding store_cosigned
    store_cosigned-Advances refresh none db = Advances-refl bolt db
    store_cosigned-Advances refresh (some bytes) db =
        compare_and_set-Advances bolt _ rec _ db follows

    cosign-Advances :
        (refresh : Bool) (db : Db bolt)
        → Advances bolt db (cosign bolt w src rd next rec refresh db).0
    unfolding cosign
    cosign-Advances refresh db = elim (Bool-cases (too_old w rd.now_fresh next)) [
      | inl old ↦ rw old (Advances-refl bolt db)
      | inr fresh ↦ rw fresh (store_cosigned-Advances refresh _ db)
    ]

    proven-Advances :
        (answer : Answer Note Unit) (db : Db bolt)
        → Advances bolt db (proven bolt w src rd next rec answer db).0
    unfolding proven
    proven-Advances (contradiction fe) db = report_fork-Advances fe db
    proven-Advances failed db = Advances-refl bolt db
    proven-Advances (value _) db = cosign-Advances false db

  after_gate-Advances :
      (next : Head Note) (rec : Option Record) (g : Gate Note) (db : Db bolt)
      → ((r : Bool) → g ≡ go_on r → MayFollow rec next.size next.hash)
      → Advances bolt db (after_gate bolt w src rd next rec g db).0
  unfolding after_gate
  after_gate-Advances next rec (stop e) db m = Advances-refl bolt db
  after_gate-Advances next rec (accuse fe) db m = report_fork-Advances fe db
  after_gate-Advances next rec unchanged db m = Advances-refl bolt db
  after_gate-Advances next rec (go_on true) db m = cosign-Advances next rec (m true refl) true db
  after_gate-Advances next rec (go_on false) db m = proven-Advances next rec (m false refl) _ db

  module _ (fetching : (db : Db bolt) → Advances bolt db (rd.during_fetch db))
      (verifying : (db : Db bolt) → Advances bolt db (rd.during_verify db)) where
    after_fetch-Advances :
        (rec : Option Record) (answer : Answer Note (Head Note)) (db : Db bolt)
        → Advances bolt db (after_fetch bolt w src rd rec answer db).0
    unfolding after_fetch
    after_fetch-Advances rec (contradiction fe) db = report_fork-Advances fe db
    after_fetch-Advances rec failed db = Advances-refl bolt db
    after_fetch-Advances rec (value next) db =
        Advances-trans bolt (observe_peers-Advances next db) (
          Advances-trans bolt (verifying _) (elim (Bool-cases (str_eq next.origin src.origin)) [
            | inl same ↦
                rw same (after_gate-Advances next rec _ _ (gate-MayFollow w src _ rec next))
            | inr other ↦ rw other (Advances-refl bolt _)
          ]))

    after_get-Advances :
        (r : Result (Option Record)) (db : Db bolt)
        → Advances bolt db (after_get bolt w src rd r db).0
    unfolding after_get
    after_get-Advances (err e) db = Advances-refl bolt db
    after_get-Advances (ok rec) db =
        Advances-trans bolt (fetching db) (after_fetch-Advances rec _ _)

    after_check-Advances :
        (r : Result Bool) (db : Db bolt) → Advances bolt db (after_check bolt w src rd r db).0
    unfolding after_check
    after_check-Advances (err e) db = Advances-refl bolt db
    after_check-Advances (ok true) db = Advances-refl bolt db
    after_check-Advances (ok false) db = after_get-Advances _ db

    -- Whatever a round is given and however it ends, poisons stay and no stored head goes back or
    -- changes its root at one size, if that holds of what others do to the database in the meantime.
    pub process-Advances : (db : Db bolt) → Advances bolt db (process bolt w src rd db).0
    unfolding process
    process-Advances db = after_check-Advances _ db

-- A round of a run: the witness's settings, the log, and what the round does not decide.
pub record Turn (bolt : Bolt) (Note : Type 0) : Type 0 where
  pub witness : Witness Note
  pub source : Source Note
  pub round : Round bolt

module _ (bolt : Bolt) {Note : Type 0} where
  -- While this round waits, others change the database only as the witness itself may.
  pub record IsShared (t : Turn bolt Note) : Type 0 where
    pub fetching : (db : Db bolt) → Advances bolt db (t.round.during_fetch db)
    pub verifying : (db : Db bolt) → Advances bolt db (t.round.during_verify db)

  -- Rounds of any logs, one after the other.
  pub run_rounds : List (Turn bolt Note) → Db bolt → Db bolt
  run_rounds [] db = db
  run_rounds (t ∷ rest) db = run_rounds rest (process bolt t.witness t.source t.round db).0

  -- Whatever rounds run, of any logs and in any order, while what others do to the database in
  -- between advances it: no log's stored head shrinks, no stored head of a size gives
  -- way to another root of that size, and no poisoned log is clean again.
  pub run_rounds-Advances :
      (ts : List (Turn bolt Note)) (db : Db bolt)
      → All IsShared ts
      → Advances bolt db (run_rounds ts db)
  unfolding run_rounds
  run_rounds-Advances [] db shared = Advances-refl bolt db
  run_rounds-Advances (t ∷ rest) db (one, shared) =
      Advances-trans bolt
        (process-Advances bolt t.witness t.source t.round one.fetching one.verifying db)
        (run_rounds-Advances rest _ shared)
